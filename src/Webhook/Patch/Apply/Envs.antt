-- ===== src/Webhook/Patch/Apply/Envs.antt =====
-- The patch of a container's variables (buildEnvPatch), applied to the old variables, gives the new ones.
use datakit_operator.Common.{
  ℕ, suc, Option, none, some, true, List, [], ◌∷◌, ◌++◌, ◌≡◌, ◌≢◌, refl, sym, ap, ◌∙◌, inl, inr,
  ltb, length, length-append, arith, ◌==◌, Bool-cases,
}
use mathlib.Core.Option
use mathlib.Core.List.{append-nil, append_assoc}
use mathlib.Core.Bool.{decide, false≢true}
use datakit_operator.Kubernetes.{EnvVar, EnvVar-discrete}
use datakit_operator.Webhook.Patch.{
  index, end_of_array, Pointer, env_var, env_vars, Patches, add_patch, replace_patch, same_env,
  env_additions, replace_env, env_changes, replace_whole, build_env_patch,
}
use datakit_operator.Webhook.Patch.Apply.{
  apply_patch, apply_patches, as_env_var, as_env_vars, patch_envs,
}
use datakit_operator.Webhook.Patch.Apply.Arrays.{
  apply_patch-end_of_array, apply_patch-index, apply_patch-add_whole, apply_patch-replace_whole,
}

decide-true {ℓ} : {P : Type ℓ} (d : Dec P) → decide d ≡ true → P
unfolding decide
decide-true (yes p) h = p
decide-true (no n) h = absurd (false≢true h)

decide_self {ℓ} : {A : Type ℓ} {a : A} (d : Dec (a ≡ a)) → decide d ≡ true
unfolding decide
decide_self (yes p) = refl
decide_self (no n) = absurd (n refl)

pub same_env_refl : (e : EnvVar) → same_env e e ≡ true
unfolding same_env
same_env_refl e = decide_self (EnvVar-discrete e e)

same_env-eq : (a b : EnvVar) → same_env a b ≡ true → a ≡ b
unfolding same_env
same_env-eq a b h = decide-true (EnvVar-discrete a b) h

first_then :
    (base : Pointer) (p : _) (ps : Patches) (xs ys : List EnvVar)
    → apply_patch as_env_var as_env_vars base p xs ≡ some ys
    → patch_envs base (p ∷ ps) xs ≡ patch_envs base ps ys
unfolding patch_envs apply_patches
first_then base p ps xs ys h = rw h refl

no_patches : (base : Pointer) (xs : List EnvVar) → patch_envs base [] xs ≡ some xs
unfolding patch_envs apply_patches
no_patches base xs = refl

appends_one :
    (base : Pointer) (n : EnvVar) (xs : List EnvVar)
    → apply_patch as_env_var as_env_vars base (add_patch (base ++ end_of_array ∷ []) (env_var n)) xs
      ≡ some (xs ++ n ∷ [])
unfolding as_env_var
appends_one base n xs = apply_patch-end_of_array as_env_var as_env_vars base (env_var n) n xs refl

env_additions-append :
    (base : Pointer) (xs news : List EnvVar)
    → patch_envs base (env_additions base news) xs ≡ some (xs ++ news)
unfolding env_additions
env_additions-append base xs [] = no_patches base xs ∙ ap some (sym (append-nil xs))
env_additions-append base xs (n ∷ news) =
    first_then base _ _ xs (xs ++ n ∷ []) (appends_one base n xs)
    ∙ env_additions-append base (xs ++ n ∷ []) news
    ∙ ap some (append_assoc xs (n ∷ []) news)

replaces_one :
    (base : Pointer) (pre : List EnvVar) (o n : EnvVar) (xs : List EnvVar)
    → apply_patch as_env_var as_env_vars base
        (replace_patch (base ++ index (length pre) ∷ []) (env_var n))
        (pre ++ o ∷ xs)
      ≡ some (pre ++ n ∷ xs)
unfolding as_env_var
replaces_one base pre o n xs =
    apply_patch-index as_env_var as_env_vars base (env_var n) pre o n xs refl

-- One step of the comparison puts the new variable in its place.
replace_env-place :
    (base : Pointer) (pre : List EnvVar) (o n : EnvVar) (xs : List EnvVar) (rest : Patches)
    → patch_envs base (replace_env base (length pre) o n rest) (pre ++ o ∷ xs)
      ≡ patch_envs base rest (pre ++ n ∷ xs)
unfolding replace_env
replace_env-place base pre o n xs rest = elim (Bool-cases (same_env o n)) [
  | inl same ↦ rw same (ap (λ e. patch_envs base rest (pre ++ e ∷ xs)) (same_env-eq o n same))
  | inr other ↦
      rw other
        (first_then base _ rest (pre ++ o ∷ xs) (pre ++ n ∷ xs) (replaces_one base pre o n xs))
]

Places : Pointer → ℕ → List EnvVar → List EnvVar → Option Patches → Type 0
Places base i olds news none = Unit
Places base i olds news (some ps) =
    (pre : List EnvVar) → length pre ≡ i → patch_envs base ps (pre ++ olds) ≡ some (pre ++ news)

Places-cons :
    (base : Pointer) (i : ℕ) (o n : EnvVar) (olds news : List EnvVar) (r : Option Patches)
    → Places base (suc i) olds news r
    → Places base i (o ∷ olds) (n ∷ news) (Option.map (replace_env base i o n) r)
unfolding Places
Places-cons base i o n olds news none h = tt
Places-cons base i o n olds news (some ps) h = λ pre e.
    ap (λ k. patch_envs base (replace_env base k o n ps) (pre ++ o ∷ olds)) (sym e)
    ∙ replace_env-place base pre o n olds ps
    ∙ ap (patch_envs base ps) (sym (append_assoc pre (n ∷ []) olds))
    ∙ h (pre ++ n ∷ []) (omega (arith, length-append pre (n ∷ []), e))
    ∙ ap some (append_assoc pre (n ∷ []) news)

env_changes-Places :
    (base : Pointer) (i : ℕ) (olds news : List EnvVar)
    → Places base i olds news (env_changes base i olds news)
unfolding env_changes Places
env_changes-Places base i [] news = λ pre e.
    ap (patch_envs base (env_additions base news)) (append-nil pre)
    ∙ env_additions-append base pre news
env_changes-Places base i (o ∷ olds) [] = tt
env_changes-Places base i (o ∷ olds) (n ∷ news) = elim (Bool-cases (o.name == n.name)) [
  | inl same ↦
      rw same (Places-cons base i o n olds news _ (env_changes-Places base (suc i) olds news))
  | inr other ↦ rw other tt
]

replaced :
    (base : Pointer) (new xs : List EnvVar)
    → patch_envs base (replace_patch base (env_vars new) ∷ []) xs ≡ some new
unfolding as_env_vars
replaced base new xs =
    first_then base _ [] xs new
      (apply_patch-replace_whole as_env_var as_env_vars base (env_vars new) new xs refl)
    ∙ no_patches base new

added :
    (base : Pointer) (new xs : List EnvVar)
    → patch_envs base (add_patch base (env_vars new) ∷ []) xs ≡ some new
unfolding as_env_vars
added base new xs =
    first_then base _ [] xs new
      (apply_patch-add_whole as_env_var as_env_vars base (env_vars new) new xs refl)
    ∙ no_patches base new

replace_whole-new :
    (base : Pointer) (old new : List EnvVar) (r : Option Patches)
    → Places base 0 old new r
    → patch_envs base (replace_whole base new r) old ≡ some new
unfolding Places replace_whole
replace_whole-new base old new none h = replaced base new old
replace_whole-new base old new (some ps) h = h [] refl

-- Applying the patch that buildEnvPatch makes of two lists of variables to the old list gives
-- exactly the new list, whether the patch replaces single variables, appends some, or replaces
-- the whole; the new list is not empty.
pub build_env_patch-apply :
    (base : Pointer) (old new : List EnvVar)
    → new ≢ []
    → patch_envs base (build_env_patch base old new) old ≡ some new
unfolding build_env_patch
build_env_patch-apply base old [] h = absurd (h refl)
build_env_patch-apply base [] (n ∷ news) h = added base (n ∷ news) []
build_env_patch-apply base (o ∷ olds) (n ∷ news) h =
    elim (Bool-cases (ltb (length (n ∷ news)) (length (o ∷ olds)))) [
      | inl shorter ↦ rw shorter (replaced base (n ∷ news) (o ∷ olds))
      | inr longer ↦ rw longer (
          replace_whole-new base (o ∷ olds) (n ∷ news) _
            (env_changes-Places base 0 (o ∷ olds) (n ∷ news)))
    ]
