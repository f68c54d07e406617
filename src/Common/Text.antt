-- ===== src/Common/Text.antt =====
-- The functions of Go's package `strings` that the program calls, over native texts.
pub mod Pieces
use Prim.Native.Char.{Char, code}
use Prim.Native.Nat.{ℕ, ◌+◌, ◌/◌, ◌%◌}
use Prim.Native.String
use Prim.Native.String.{String}
use mathlib.Core.Bool.{Bool, true, false, ◌&&◌, ◌||◌}
use mathlib.Core.List.{List, [], ◌∷◌, ◌++◌}
use mathlib.Core.Option.{Option, none, some}
use mathlib.Core.Bool.{false≢true}
use mathlib.Core.Logic.{inl, inr}
use mathlib.Core.Path.{sym, ◌∙◌}
use text.Mathlib.TextEquality.{eq_iff}
use text.Mathlib.Text.{◌==◌, is_le}
use datakit_operator.Common.Tests.{Bool-cases, if◌then◌else◌, eqb, leb}

abbrev pub cons : Char → String → String
cons c s = String.◌∷◌ c s

infixr 66 ◌⁀◌
-- `s + t`
abbrev pub ◌⁀◌ : String → String → String
s ⁀ t = String.◌++◌ s t

abbrev pub push_first : Char → List String → List String
push_first c [] = cons c "" ∷ []
push_first c (w ∷ ws) = cons c w ∷ ws

-- The pieces between the characters that pass a test.
unfoldable pub split_by : (ℕ → Bool) → String → List String
split_by test String.[] = "" ∷ []
split_by test (String.◌∷◌ c s) =
    if test (code c) then "" ∷ split_by test s else push_first c (split_by test s)

-- `strings.Split(s, sep)` for a separator of one character, given by its code.
unfoldable pub split : ℕ → String → List String
unfolding split_by
split sep s = split_by (λ c. eqb c sep) s

-- `strings.Join(ws, sep)`
unfoldable pub join : String → List String → String
join sep [] = ""
join sep (w ∷ []) = w
join sep (w ∷ v ∷ ws) = w ⁀ sep ⁀ join sep (v ∷ ws)

-- `unicode.IsSpace`
unfoldable pub is_space : ℕ → Bool
is_space c =
    (leb 9 c && leb c 13)
    || eqb c 32
    || eqb c 0x85
    || eqb c 0xA0
    || eqb c 0x1680
    || (leb 0x2000 c && leb c 0x200A)
    || eqb c 0x2028
    || eqb c 0x2029
    || eqb c 0x202F
    || eqb c 0x205F
    || eqb c 0x3000

unfoldable pub drop_empty : List String → List String
drop_empty [] = []
drop_empty (w ∷ ws) = if w == "" then drop_empty ws else w ∷ drop_empty ws

-- `strings.Fields(s)`
unfoldable pub fields : String → List String
unfolding split_by is_space drop_empty
fields s = drop_empty (split_by is_space s)

-- `strings.HasPrefix(s, p)`
unfoldable pub has_prefix : String → String → Bool
has_prefix s String.[] = true
has_prefix String.[] (String.◌∷◌ d p) = false
has_prefix (String.◌∷◌ c s) (String.◌∷◌ d p) = eqb (code c) (code d) && has_prefix s p

-- `strings.Contains(s, t)`
unfoldable pub contains : String → String → Bool
unfolding has_prefix
contains String.[] t = has_prefix "" t
contains (String.◌∷◌ c s) t = has_prefix (cons c s) t || contains s t

all_space : String → Bool
unfolding is_space
all_space String.[] = true
all_space (String.◌∷◌ c s) = is_space (code c) && all_space s

-- `strings.TrimSpace(s) == ""`
unfoldable pub is_blank : String → Bool
unfolding all_space
is_blank s = all_space s

-- The text before the first character of a code, and the text from it on.
unfoldable pub before_char : ℕ → String → String
before_char k String.[] = ""
before_char k (String.◌∷◌ c s) =
    let rest = before_char k s in if eqb (code c) k then "" else cons c rest

unfoldable pub from_char : ℕ → String → String
from_char k String.[] = ""
from_char k (String.◌∷◌ c s) = let rest = from_char k s in if eqb (code c) k then cons c s else rest

-- The text after the first character of a code.
unfoldable pub after_char : ℕ → String → String
after_char k String.[] = ""
after_char k (String.◌∷◌ c s) = let rest = after_char k s in if eqb (code c) k then s else rest

-- `strings.ReplaceAll(s, old, by)` for an old text of one character and a new one of two
unfoldable pub replace_char : ℕ → Char → Char → String → String
replace_char k by₁ by₂ String.[] = ""
replace_char k by₁ by₂ (String.◌∷◌ c s) =
    let rest = replace_char k by₁ by₂ s in
    if eqb (code c) k then cons by₁ (cons by₂ rest) else cons c rest

-- The text around the last character of a code.
last_split : ℕ → String → Option (String × String)
last_split k String.[] = none
last_split k (String.◌∷◌ c s) = elim (last_split k s) [
  | some (before, after) ↦ some (cons c before, after)
  | none ↦ if eqb (code c) k then some ("", s) else none
]

unfoldable pub split_at_last : ℕ → String → Option (String × String)
unfolding last_split
split_at_last k s = last_split k s

-- The UTF-8 bytes of a code point.
utf8_char : ℕ → List ℕ
utf8_char c =
    if leb c 0x7F
    then c ∷ []
    else if leb c 0x7FF
    then (0xC0 + c / 64) ∷ (0x80 + c % 64) ∷ []
    else if leb c 0xFFFF
    then (0xE0 + c / 4096) ∷ (0x80 + c / 64 % 64) ∷ (0x80 + c % 64) ∷ []
    else (0xF0 + c / 262144) ∷ (0x80 + c / 4096 % 64) ∷ (0x80 + c / 64 % 64) ∷ (0x80 + c % 64) ∷ []

-- `[]byte(s)`
unfoldable pub bytes : String → List ℕ
unfolding utf8_char
bytes String.[] = []
bytes (String.◌∷◌ c s) = utf8_char (code c) ++ bytes s

-- Texts can be told apart.
unfoldable pub String-discrete : Discrete String
String-discrete s t = elim (Bool-cases (s == t)) [
  | inl same ↦ yes ((eq_iff s t).0 same)
  | inr other ↦ no (λ e. false≢true (sym other ∙ (eq_iff s t).1 e))
]

-- `s <= t` in the order of the bytes, which is that of the code points
abbrev pub text_le : String → String → Bool
text_le s t = is_le (String.compare s t)

unfoldable pub insert_sorted : String → List String → List String
insert_sorted s [] = s ∷ []
insert_sorted s (t ∷ ts) = if text_le s t then s ∷ t ∷ ts else t ∷ insert_sorted s ts

-- `sort.Strings`
unfoldable pub sort_strings : List String → List String
unfolding insert_sorted
sort_strings [] = []
sort_strings (s ∷ ts) = insert_sorted s (sort_strings ts)
