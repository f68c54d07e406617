-- ===== src/Common/Text/Pieces.antt =====
-- What `strings.Split` and `strings.Fields` make of a text with something behind it.
use Prim.Native.Char.{Char, char, code}
use Prim.Native.Nat.{ℕ}
use Prim.Native.String.{String}
use mathlib.Core.Path.{◌≡◌, refl, ap, ◌∙◌}
use mathlib.Core.Logic.{inl, inr}
use mathlib.Core.Bool.{Bool, true, ◌||◌}
use mathlib.Core.List.{List, [], ◌∷◌, ◌++◌}
use text.Mathlib.Text.{◌==◌}
use text.Mathlib.TextLemmas.{cons-append, nil-append}
use datakit_operator.Common.Tests.{Bool-cases, if-cases, eqb}
use datakit_operator.Common.Lists.{any}
use datakit_operator.Common.Text.{
  cons, ◌⁀◌, push_first, split_by, split, is_space, drop_empty, fields,
}

-- There is always a first piece.
abbrev IsGiven : List String → Type 0
IsGiven [] = ⊥
IsGiven (w ∷ ws) = Unit

push_first-IsGiven : (c : Char) (ws : List String) → IsGiven (push_first c ws)
push_first-IsGiven c [] = tt
push_first-IsGiven c (w ∷ ws) = tt

split_by-IsGiven : (test : ℕ → Bool) (s : String) → IsGiven (split_by test s)
unfolding split_by
split_by-IsGiven test String.[] = tt
split_by-IsGiven test (String.◌∷◌ c s) =
    if-cases IsGiven (test (code c)) ("" ∷ split_by test s) (push_first c (split_by test s)) tt
      (push_first-IsGiven c (split_by test s))

push_first-append :
    (c : Char) (ws vs : List String) → IsGiven ws → push_first c (ws ++ vs) ≡ push_first c ws ++ vs
push_first-append c [] vs h = elim h [ ]
push_first-append c (w ∷ ws) vs h = refl

-- A separator between two texts separates their pieces.
pub split_by-append :
    (test : ℕ → Bool) (sep : Char)
    → test (code sep) ≡ true
    → (s t : String) → split_by test (s ⁀ cons sep t) ≡ split_by test s ++ split_by test t
unfolding split_by
split_by-append test sep h String.[] t = rw (nil-append (cons sep t)) (rw h refl)
split_by-append test sep h (String.◌∷◌ c s) t =
    ap (split_by test) (cons-append c s (cons sep t)) ∙ elim (Bool-cases (test (code c))) [
      | inl here ↦ rw here (ap (◌∷◌ "") (split_by-append test sep h s t))
      | inr later ↦ rw later (
          ap (push_first c) (split_by-append test sep h s t)
          ∙ push_first-append c (split_by test s) (split_by test t) (split_by-IsGiven test s))
    ]

drop_empty-append : (ws vs : List String) → drop_empty (ws ++ vs) ≡ drop_empty ws ++ drop_empty vs
unfolding drop_empty
drop_empty-append [] vs = refl
drop_empty-append (w ∷ ws) vs = elim (Bool-cases (w == "")) [
  | inl none ↦ rw none (drop_empty-append ws vs)
  | inr some ↦ rw some (ap (◌∷◌ w) (drop_empty-append ws vs))
]

abbrev pub space : Char
space = char 32 tt

abbrev pub colon : Char
colon = char 58 tt

space-is_space : is_space (code space) ≡ true
unfolding is_space
space-is_space = refl

pub fields-append : (s t : String) → fields (s ⁀ cons space t) ≡ fields s ++ fields t
unfolding fields
fields-append s t =
    ap drop_empty (split_by-append is_space space space-is_space s t)
    ∙ drop_empty-append (split_by is_space s) (split_by is_space t)

pub split-append : (s t : String) → split 58 (s ⁀ cons colon t) ≡ split 58 s ++ split 58 t
unfolding split
split-append s t = split_by-append (λ c. eqb c 58) colon refl s t

module _ {A : Type 0} (p : A → Bool) where
  pub any-append : (xs ys : List A) → any p (xs ++ ys) ≡ (any p xs || any p ys)
  any-append [] ys = refl
  any-append (x ∷ xs) ys = elim (Bool-cases (p x)) [
    | inl here ↦ rw here refl
    | inr later ↦ rw later (any-append xs ys)
  ]
