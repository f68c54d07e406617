-- ===== src/EnvBuilder/Names.antt =====
-- pkg/envbuilder/validation.go: qualified names and DNS subdomains. Each regular expression is written
-- as the test that it stands for.
use Prim.Native.Char.{code}
use datakit_operator.Common.{
  ℕ, Bool, true, false, not, ◌&&◌, ◌||◌, List, [], ◌∷◌, String, ◌==◌, if◌then◌else◌, leb, eqb,
  length, all,
}
use datakit_operator.Common.Text.{split, bytes}

abbrev is_digit : ℕ → Bool
is_digit c = leb 48 c && leb c 57

abbrev is_lower : ℕ → Bool
is_lower c = leb 97 c && leb c 122

abbrev is_upper : ℕ → Bool
is_upper c = leb 65 c && leb c 90

-- [A-Za-z0-9]
abbrev is_alphanumeric : ℕ → Bool
is_alphanumeric c = is_upper c || is_lower c || is_digit c

-- [-A-Za-z0-9_.]
abbrev pub is_name_char : ℕ → Bool
is_name_char c = eqb c 45 || is_alphanumeric c || eqb c 95 || eqb c 46

-- [a-z0-9]
abbrev is_lower_alphanumeric : ℕ → Bool
is_lower_alphanumeric c = is_lower c || is_digit c

-- [-a-z0-9]
abbrev is_label_char : ℕ → Bool
is_label_char c = eqb c 45 || is_lower_alphanumeric c

unfoldable pub every_char : (ℕ → Bool) → String → Bool
every_char p String.[] = true
every_char p (String.◌∷◌ c s) = p (code c) && every_char p s

first_char : (ℕ → Bool) → String → Bool
first_char p String.[] = false
first_char p (String.◌∷◌ c s) = p (code c)

last_char : (ℕ → Bool) → String → Bool
last_char p String.[] = false
last_char p (String.◌∷◌ c s) = let rest = last_char p s in if s == "" then p (code c) else rest

-- A text of the characters of `inner` that starts and ends with one of `outer`.
abbrev bounded : (ℕ → Bool) → (ℕ → Bool) → String → Bool
bounded outer inner s = first_char outer s && every_char inner s && last_char outer s

unfoldable pub is_dns1123_subdomain : String → Bool
unfolding first_char every_char last_char
is_dns1123_subdomain value =
    leb (length (bytes value)) 253
    && all (bounded is_lower_alphanumeric is_label_char) (split 46 value)

abbrev is_name_part : String → Bool
is_name_part name =
    not (name == "") && leb (length (bytes name)) 63 && bounded is_alphanumeric is_name_char name

qualified_parts : List String → Bool
unfolding is_dns1123_subdomain first_char every_char last_char
qualified_parts (name ∷ []) = is_name_part name
qualified_parts (prefix ∷ name ∷ []) =
    not (prefix == "") && is_dns1123_subdomain prefix && is_name_part name
qualified_parts _ = false

unfoldable pub is_qualified_name : String → Bool
unfolding qualified_parts
is_qualified_name value = qualified_parts (split 47 value)
