-- ===== src/Common/Trim.antt =====
-- More functions of Go's package `strings`: suffixes, trimming, and counting a text in another.
use Prim.Native.Char.{code}
use Prim.Native.Nat.{ℕ, zero, suc, ◌+◌, ◌-◌}
use Prim.Native.String.{String}
use mathlib.Core.Path.{◌≡◌, refl}
use mathlib.Core.Bool.{Bool, true, false, ◌&&◌, ◌||◌}
use text.Mathlib.Text.{◌==◌}
use datakit_operator.Common.Tests.{if◌then◌else◌, eqb}
use datakit_operator.Common.Text.{cons, has_prefix}

size : String → ℕ
size String.[] = 0
size (String.◌∷◌ c s) = suc (size s)

-- `strings.HasSuffix(s, t)`
unfoldable pub has_suffix : String → String → Bool
has_suffix String.[] t = "" == t
has_suffix (String.◌∷◌ c s) t = cons c s == t || has_suffix s t

-- `strings.TrimSuffix(s, t)`
unfoldable pub trim_suffix : String → String → String
trim_suffix String.[] t = ""
trim_suffix (String.◌∷◌ c s) t =
    let rest = trim_suffix s t in if cons c s == t then "" else cons c rest

after_prefix : String → String → String
after_prefix s String.[] = s
after_prefix String.[] (String.◌∷◌ d p) = ""
after_prefix (String.◌∷◌ c s) (String.◌∷◌ d p) = after_prefix s p

-- `strings.TrimPrefix(s, p)`
unfoldable pub trim_prefix : String → String → String
unfolding has_prefix after_prefix
trim_prefix s p = if has_prefix s p then after_prefix s p else s

-- Quotes, double or single.
abbrev is_quote : ℕ → Bool
is_quote c = eqb c 34 || eqb c 39

trim_right : String → String
trim_right String.[] = ""
trim_right (String.◌∷◌ c s) =
    let rest = trim_right s in if rest == "" && is_quote (code c) then "" else cons c rest

trim_left : String → String
trim_left String.[] = ""
trim_left (String.◌∷◌ c s) = let rest = trim_left s in if is_quote (code c) then rest else cons c s

-- `strings.Trim(s, cutset)` for the two quotes as the cutset
unfoldable pub trim_quotes : String → String
unfolding trim_left trim_right
trim_quotes s = trim_left (trim_right s)

abbrev one_if : Bool → ℕ
one_if true = 1
one_if false = 0

-- Occurrences from here on, after the number of characters that an occurrence still covers.
count_after : String → ℕ → String → ℕ
unfolding has_prefix size
count_after t k String.[] = 0
count_after t (suc k) (String.◌∷◌ c s) = count_after t k s
count_after t zero (String.◌∷◌ c s) =
    let here = has_prefix (cons c s) t in
    one_if here + count_after t (if here then size t - 1 else 0) s

-- `strings.Count(s, t)` for a text `t` that is not empty
unfoldable pub count_text : String → String → ℕ
unfolding count_after
count_text s t = count_after t 0 s

trimmed :
    (trim_quotes "\"'a'b'" ≡ "a'b")
    × (trim_suffix "x.js.js" ".js" ≡ "x.js")
    × (trim_prefix "-r=a" "-r=" ≡ "a")
    × (has_suffix "a/b" "/b" ≡ true)
    × (count_text "aaaaa" "aa" ≡ 2)
unfolding trim_quotes trim_suffix trim_prefix has_suffix count_text
trimmed = (refl, refl, refl, refl, refl)
