-- ===== src/Webhook/Patch/Apply/Named.antt =====
-- The patch of a list of named items (buildNamedAppendPatch), applied to the old list.
use datakit_operator.Common.{
  Option, some, true, false, List, [], ◌∷◌, ◌++◌, String, ◌≡◌, refl, sym, ap, ◌∙◌, All, eq_refl,
  if-cases,
}
use mathlib.Core.List.{append-nil, append_assoc}
use mathlib.Core.Path.{subst}
use datakit_operator.Manager.{contains_name}
use datakit_operator.Manager.Named.{Extends, contains_name-append}
use datakit_operator.Webhook.Patch.{
  Pointer, Value, Patches, JsonPatchOperation, named_additions, build_named_append_patch,
}
use datakit_operator.Webhook.Patch.Apply.{apply_patch, apply_patches}
use datakit_operator.Webhook.Patch.Apply.Arrays.{apply_patch-end_of_array, apply_patch-add_whole}

-- Items whose names are there already add nothing.
module _ {ℓ} {A : Type ℓ} (wrap : A → Value) (wrap_all : List A → Value)
    (name_of : A → String) where
  pub additions-known :
      (base : Pointer) (old xs ys : List A)
      → All (λ x. contains_name name_of (name_of x) old ≡ true) xs
      → named_additions wrap wrap_all name_of base old (xs ++ ys)
        ≡ named_additions wrap wrap_all name_of base old ys
  unfolding named_additions
  additions-known base old [] ys h = refl
  additions-known base old (x ∷ xs) ys (here, h) = rw here (additions-known base old xs ys h)

  pub contained :
      (before old : List A)
      → All (λ x. contains_name name_of (name_of x) (before ++ old) ≡ true) old
  unfolding contains_name
  contained before [] = tt
  contained before (x ∷ old) = (
    rw (contains_name-append name_of (name_of x) before (x ∷ old), eq_refl (name_of x))
        (if-cases (λ b. b ≡ true) (contains_name name_of (name_of x) before) true true refl refl),
    subst (λ l. All (λ x. contains_name name_of (name_of x) l ≡ true) old)
        (append_assoc before (x ∷ []) old) (contained (before ++ x ∷ []) old),
  )

-- The items of type A as values of a patch, and how the receiver reads them.
module _ {ℓ} {A : Type ℓ} (wrap : A → Value) (wrap_all : List A → Value) (name_of : A → String)
    (unwrap : Value → Option A) (unwrap_all : Value → Option (List A))
    (reads : (x : A) → unwrap (wrap x) ≡ some x)
    (reads_all : (xs : List A) → unwrap_all (wrap_all xs) ≡ some xs) (base : Pointer) where
  additions : List A → List A → Patches
  additions = named_additions wrap wrap_all name_of base

  run : Patches → List A → Option (List A)
  run = apply_patches unwrap unwrap_all base

  first_then :
      (p : JsonPatchOperation) (ps : Patches) (xs ys : List A)
      → apply_patch unwrap unwrap_all base p xs ≡ some ys
      → run (p ∷ ps) xs ≡ run ps ys
  unfolding run apply_patches
  first_then p ps xs ys h = rw h refl

  nothing_to_run : (xs : List A) → run [] xs ≡ some xs
  unfolding run apply_patches
  nothing_to_run xs = refl

  additions-fresh :
      (old xs ys : List A)
      → All (λ x. contains_name name_of (name_of x) old ≡ false) ys
      → run (additions old ys) xs ≡ some (xs ++ ys)
  unfolding additions named_additions
  additions-fresh old xs [] h = nothing_to_run xs ∙ ap some (sym (append-nil xs))
  additions-fresh old xs (y ∷ ys) (new, h) = rw new (
      first_then _ _ xs (xs ++ y ∷ [])
        (apply_patch-end_of_array unwrap unwrap_all base (wrap y) y xs (reads y))
      ∙ additions-fresh old (xs ++ y ∷ []) ys h
      ∙ ap some (append_assoc xs (y ∷ []) ys))

  extended :
      (old added : List A)
      → All (λ x. contains_name name_of (name_of x) old ≡ false) added
      → run (build_named_append_patch wrap wrap_all name_of base old (old ++ added)) old
        ≡ some (old ++ added)
  unfolding build_named_append_patch additions
  extended [] [] h = nothing_to_run []
  extended [] (x ∷ xs) h =
      first_then _ [] [] (x ∷ xs) (
        apply_patch-add_whole unwrap unwrap_all base (wrap_all (x ∷ xs)) (x ∷ xs) []
          (reads_all (x ∷ xs)))
      ∙ nothing_to_run (x ∷ xs)
  extended (y ∷ ys) added h =
      ap (λ ps. run ps (y ∷ ys))
        (additions-known wrap wrap_all name_of base (y ∷ ys) (y ∷ ys) added
          (contained wrap wrap_all name_of [] (y ∷ ys)))
      ∙ additions-fresh (y ∷ ys) (y ∷ ys) added h

  -- For items that the receiver reads back from a patch, if the new list is the old one with
  -- items of new names behind it, applying the patch that buildNamedAppendPatch makes of the
  -- two lists to the old list gives exactly the new list.
  pub build_named_append_patch-apply :
      (old new : List A)
      → Extends name_of old new
      → apply_patches unwrap unwrap_all base
          (build_named_append_patch wrap wrap_all name_of base old new)
          old
        ≡ some new
  unfolding run
  build_named_append_patch-apply old new e =
      subst (λ l. run (build_named_append_patch wrap wrap_all name_of base old l) old ≡ some l)
        (sym e.appended) (extended old e.added e.fresh)
