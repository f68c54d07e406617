-- ===== src/Common/FilePath.antt =====
-- Go's `filepath.Clean` and `filepath.Dir` on Unix, and `strconv.Itoa` of a natural number.
use Prim.Native.Nat.{ℕ, zero, suc}
use Prim.Native.String.{String}
use mathlib.Core.Bool.{Bool, ◌||◌}
use mathlib.Core.List.{List, [], ◌∷◌}
use mathlib.Core.Option.{Option, none, some}
use text.Mathlib.Text.{◌==◌}
use datakit_operator.Common.Tests.{if◌then◌else◌, eqb}
use datakit_operator.Common.Text.{◌⁀◌, split, join, split_at_last, has_prefix}

-- The elements of the path so far are kept with the last one in front.
pop_or_keep : Bool → List String → List String
pop_or_keep rooted [] = if rooted then [] else ".." ∷ []
pop_or_keep rooted (last ∷ rest) = if last == ".." then ".." ∷ last ∷ rest else rest

clean_onto : Bool → List String → List String → List String
unfolding pop_or_keep
clean_onto rooted out [] = out
clean_onto rooted out (part ∷ parts) =
    clean_onto rooted
      (if part == "" || part == "."
        then out
        else if part == ".."
        then pop_or_keep rooted out
        else part ∷ out)
      parts

reversed : List String → List String → List String
reversed out [] = out
reversed out (s ∷ rest) = reversed (s ∷ out) rest

abbrev dot_for_empty : String → String
dot_for_empty s = if s == "" then "." else s

-- `filepath.Clean`, with 47 for a slash
unfoldable pub clean : String → String
unfolding clean_onto reversed has_prefix split join
clean path =
    let rooted = has_prefix path "/" in
    let text = join "/" (reversed [] (clean_onto rooted [] (split 47 path))) in
    if rooted then "/" ⁀ text else dot_for_empty text

abbrev cleaned_directory : Option (String × String) → String
cleaned_directory none = "."
cleaned_directory (some (before, after)) = clean (before ⁀ "/")

-- `filepath.Dir`
unfoldable pub dir : String → String
unfolding clean split_at_last
dir path = cleaned_directory (split_at_last 47 path)

-- Digits with the last one in front.
increment : List ℕ → List ℕ
increment [] = 1 ∷ []
increment (d ∷ ds) = let rest = increment ds in if eqb d 9 then 0 ∷ rest else suc d ∷ ds

digits : ℕ → List ℕ
unfolding increment
digits zero = 0 ∷ []
digits (suc n) = increment (digits n)

digit_text : ℕ → String
digit_text d =
    if eqb d 0
    then "0"
    else if eqb d 1
    then "1"
    else if eqb d 2
    then "2"
    else if eqb d 3
    then "3"
    else if eqb d 4
    then "4"
    else if eqb d 5
    then "5"
    else if eqb d 6
    then "6"
    else if eqb d 7
    then "7"
    else if eqb d 8
    then "8"
    else "9"

itoa_from : List ℕ → String → String
itoa_from [] text = text
itoa_from (d ∷ ds) text = itoa_from ds (digit_text d ⁀ text)

unfoldable pub itoa : ℕ → String
unfolding digits itoa_from digit_text
itoa n = itoa_from (digits n) ""
