-- ===== src/Webhook/Patch/Apply/Arrays.antt =====
-- Lemmas on the application of one operation to an array.
use datakit_operator.Common.{
  ℕ, Option, some, true, List, [], ◌∷◌, ◌++◌, ◌≡◌, refl, eqb, length, eq_refl, arith,
}
use datakit_operator.Webhook.Patch.{
  Token, field, index, end_of_array, Pointer, Value, add_patch, replace_patch,
}
use datakit_operator.Webhook.Patch.Apply.{
  same_token, below, set_at, change, change_below, apply_patch,
}

eqb_refl : (n : ℕ) → eqb n n ≡ true
eqb_refl n = ground arith

same_token_refl : (t : Token) → same_token t t ≡ true
unfolding same_token
same_token_refl (field s) = eq_refl s
same_token_refl (index i) = eqb_refl i
same_token_refl end_of_array = refl

-- A path that starts with `base` is below it.
pub below_append : (base rest : Pointer) → below base (base ++ rest) ≡ some rest
unfolding below
below_append [] rest = refl
below_append (b ∷ base) rest = rw (same_token_refl b, below_append base rest) refl

pub set_at-append {ℓ} :
    {A : Type ℓ} (pre : List A) (o n : A) (xs : List A)
    → set_at (length pre) n (pre ++ o ∷ xs) ≡ some (pre ++ n ∷ xs)
unfolding set_at
set_at-append [] o n xs = refl
set_at-append (p ∷ pre) o n xs = rw (set_at-append pre o n xs) refl

module _ {ℓ} {A : Type ℓ} (unwrap : Value → Option A) (unwrap_all : Value → Option (List A)) where
  pub apply_patch-end_of_array :
      (base : Pointer) (v : Value) (x : A) (xs : List A)
      → unwrap v ≡ some x
      → apply_patch unwrap unwrap_all base (add_patch (base ++ end_of_array ∷ []) v) xs
        ≡ some (xs ++ x ∷ [])
  unfolding apply_patch change_below change add_patch
  apply_patch-end_of_array base v x xs h = rw (below_append base (end_of_array ∷ []), h) refl

  pub apply_patch-index :
      (base : Pointer) (v : Value) (pre : List A) (o n : A) (xs : List A)
      → unwrap v ≡ some n
      → apply_patch unwrap unwrap_all base
          (replace_patch (base ++ index (length pre) ∷ []) v)
          (pre ++ o ∷ xs)
        ≡ some (pre ++ n ∷ xs)
  unfolding apply_patch change_below change replace_patch
  apply_patch-index base v pre o n xs h =
      rw (below_append base (index (length pre) ∷ []), h, set_at-append pre o n xs) refl

  base-append-nil : (base : Pointer) → below base base ≡ some []
  unfolding below
  base-append-nil [] = refl
  base-append-nil (b ∷ base) = rw (same_token_refl b, base-append-nil base) refl

  pub apply_patch-add_whole :
      (base : Pointer) (v : Value) (new xs : List A)
      → unwrap_all v ≡ some new
      → apply_patch unwrap unwrap_all base (add_patch base v) xs ≡ some new
  unfolding apply_patch change_below change add_patch
  apply_patch-add_whole base v new xs h = rw (base-append-nil base, h) refl

  pub apply_patch-replace_whole :
      (base : Pointer) (v : Value) (new xs : List A)
      → unwrap_all v ≡ some new
      → apply_patch unwrap unwrap_all base (replace_patch base v) xs ≡ some new
  unfolding apply_patch change_below change replace_patch
  apply_patch-replace_whole base v new xs h = rw (base-append-nil base, h) refl
