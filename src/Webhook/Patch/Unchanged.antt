-- ===== src/Webhook/Patch/Unchanged.antt =====
-- A pod that is not changed gets an empty patch (buildPodInjectionPatch).
use datakit_operator.Common.{
  ℕ, suc, Option, none, some, Bool, true, false, List, [], ◌∷◌, ◌++◌, map, String, ◌≡◌, refl, sym,
  ap, ◌∙◌, eq_refl, Bool-cases, inl, inr, All, arith, lookup, is_some, ltb, length,
}
use datakit_operator.Common.Text.{sort_strings, insert_sorted, text_le}
use datakit_operator.Kubernetes.{EnvVar, Container, VolumeMount, Volume, PodSpec, Pod}
use datakit_operator.Manager.{contains_name}
use datakit_operator.Manager.Named.{HasDistinctNames}
use datakit_operator.Webhook.Patch.{
  mount, mounts, Pointer, Value, Patches, volume, volumes, container, containers, named_additions,
  build_named_append_patch, env_changes, replace_env, env_additions, replace_whole, build_env_patch,
  annotation_change, annotation_changes, build_annotation_patch, last_named, container_fields,
  container_field_patches, build_container_field_patch, bool_ptr_equal,
  share_process_namespace_patch, restart_policy_patch, build_pod_spec_patch,
  build_pod_injection_patch, value_or_empty,
}
use datakit_operator.Webhook.Patch.Apply.Named.{additions-known, contained}
use datakit_operator.Webhook.Patch.Apply.Envs.{same_env_refl}
use mathlib.Core.List.{append-nil, append_assoc}
use mathlib.Core.Path.{subst}

named_same :
    {A : Type 0} (wrap : A → Value) (wrap_all : List A → Value) (name_of : A → String)
    (base : Pointer) (xs : List A)
    → build_named_append_patch wrap wrap_all name_of base xs xs ≡ []
unfolding build_named_append_patch named_additions
named_same wrap wrap_all name_of base [] = refl
named_same wrap wrap_all name_of base (x ∷ xs) =
    ap (named_additions wrap wrap_all name_of base (x ∷ xs)) (sym (append-nil (x ∷ xs)))
    ∙ additions-known wrap wrap_all name_of base (x ∷ xs) (x ∷ xs) []
        (contained wrap wrap_all name_of [] (x ∷ xs))

env_changes-same : (base : Pointer) (i : ℕ) (xs : List EnvVar) → env_changes base i xs xs ≡ some []
unfolding env_changes env_additions replace_env
env_changes-same base i [] = refl
env_changes-same base i (x ∷ xs) =
    rw (eq_refl x.name, env_changes-same base (suc i) xs, same_env_refl x) refl

not_shorter : (n : ℕ) → ltb n n ≡ false
not_shorter n = ground arith

env_same : (base : Pointer) (xs : List EnvVar) → build_env_patch base xs xs ≡ []
unfolding build_env_patch replace_whole
env_same base [] = refl
env_same base (x ∷ xs) = rw (not_shorter (length (x ∷ xs)), env_changes-same base 0 (x ∷ xs)) refl

annotation_change-same :
    (key : String) (o : Option String) (rest : Patches)
    → is_some o ≡ true
    → annotation_change key o (value_or_empty o) rest ≡ rest
unfolding annotation_change
annotation_change-same key none rest h = ground arith
annotation_change-same key (some v) rest h = rw (eq_refl v) refl

annotation_same :
    (old : List (String × String)) (keys : List String)
    → All (λ k. is_some (lookup k old) ≡ true) keys
    → annotation_changes old old keys ≡ []
unfolding annotation_changes
annotation_same old [] h = refl
annotation_same old (k ∷ keys) (here, h) =
    annotation_change-same k (lookup k old) (annotation_changes old old keys) here
    ∙ annotation_same old keys h

module _ (P : String → Type 0) where
  All-insert_sorted : (s : String) (ts : List String) → P s → All P ts → All P (insert_sorted s ts)
  unfolding insert_sorted
  All-insert_sorted s [] p h = (p, tt)
  All-insert_sorted s (t ∷ ts) p (q, h) = elim (Bool-cases (text_le s t)) [
    | inl first ↦ rw first (p, (q, h))
    | inr later ↦ rw later (q, All-insert_sorted s ts p h)
  ]

  All-sort_strings : (ts : List String) → All P ts → All P (sort_strings ts)
  unfolding sort_strings
  All-sort_strings [] h = tt
  All-sort_strings (t ∷ ts) (p, h) = All-insert_sorted t (sort_strings ts) p (All-sort_strings ts h)

lookup_within :
    (k v : String) (pre xs : List (String × String))
    → is_some (lookup k (pre ++ (k, v) ∷ xs)) ≡ true
lookup_within k v [] xs = rw (eq_refl k) refl
lookup_within k v ((j, w) ∷ pre) xs = ground (arith, lookup_within k v pre xs)

keys_known :
    (pre xs : List (String × String))
    → All (λ k. is_some (lookup k (pre ++ xs)) ≡ true) (map (λ e. e.0) xs)
keys_known pre [] = tt
keys_known pre ((k, v) ∷ xs) = (
  lookup_within k v pre xs,
  subst (λ l. All (λ j. is_some (lookup j l) ≡ true) (map (λ e. e.0) xs))
      (append_assoc pre ((k, v) ∷ []) xs) (keys_known (pre ++ (k, v) ∷ []) xs),
)

annotations_same : (xs : List (String × String)) → build_annotation_patch xs xs ≡ []
unfolding build_annotation_patch
annotations_same [] = refl
annotations_same (x ∷ xs) = annotation_same (x ∷ xs) _ (
    All-sort_strings (λ k. is_some (lookup k (x ∷ xs)) ≡ true) (map (λ e. e.0) (x ∷ xs))
      (keys_known [] (x ∷ xs)))

last_named-absent :
    (k : String) (xs : List Container)
    → contains_name Container.name k xs ≡ false
    → last_named k xs ≡ none
unfolding contains_name last_named
last_named-absent k [] h = refl
last_named-absent k (x ∷ xs) h = ground (arith, last_named-absent k xs)

-- Every container is the last one of its name.
IsLast : List Container → Container → Type 0
IsLast xs o = last_named o.name xs ≡ some o

IsLast-cons :
    (x : Container) (xs : List Container) (o : Container) → IsLast xs o → IsLast (x ∷ xs) o
unfolding IsLast last_named
IsLast-cons x xs o h = rw h refl

All-IsLast-cons :
    (x : Container) (xs os : List Container) → All (IsLast xs) os → All (IsLast (x ∷ xs)) os
All-IsLast-cons x xs [] h = tt
All-IsLast-cons x xs (o ∷ os) (p, h) = (IsLast-cons x xs o p, All-IsLast-cons x xs os h)

IsLast-head :
    (x : Container) (xs : List Container)
    → contains_name Container.name x.name xs ≡ false
    → IsLast (x ∷ xs) x
unfolding IsLast last_named
IsLast-head x xs h = rw (last_named-absent x.name xs h, eq_refl x.name) refl

distinct-IsLast : (xs : List Container) → HasDistinctNames Container.name xs → All (IsLast xs) xs
distinct-IsLast [] d = tt
distinct-IsLast (x ∷ xs) (fresh, d) =
    (IsLast-head x xs fresh, All-IsLast-cons x xs xs (distinct-IsLast xs d))

fields_same : (i : ℕ) (o : Container) → container_fields i o (some o) ≡ []
unfolding container_fields
fields_same i o = rw (env_same _ o.env) (named_same mount mounts VolumeMount.name _ o.volume_mounts)

containers_same :
    (i : ℕ) (xs os : List Container) → All (IsLast xs) os → container_field_patches i os xs ≡ []
unfolding container_field_patches IsLast
containers_same i xs [] h = refl
containers_same i xs (o ∷ os) (p, h) = rw (p, fields_same i o) (containers_same (suc i) xs os h)

share_same : (o : Option Bool) → share_process_namespace_patch o o ≡ []
unfolding share_process_namespace_patch bool_ptr_equal
share_same none = refl
share_same (some true) = refl
share_same (some false) = refl

restart_same : (s : String) → restart_policy_patch s s ≡ []
unfolding restart_policy_patch
restart_same s = rw (eq_refl s) refl

spec_same :
    (s : PodSpec) → HasDistinctNames Container.name s.containers → build_pod_spec_patch s s ≡ []
unfolding build_pod_spec_patch build_container_field_patch
spec_same s d =
    rw
      (
        share_same s.share_process_namespace,
        restart_same s.restart_policy,
        named_same volume volumes Volume.name _ s.volumes,
        named_same container containers Container.name _ s.init_containers,
        named_same container containers Container.name _ s.containers,
      )
      (containers_same 0 s.containers s.containers (distinct-IsLast s.containers d))

-- The patch from a pod to itself has no operation, if the names of its containers are distinct.
pub build_pod_injection_patch-same :
    (pod : Pod)
    → HasDistinctNames Container.name pod.spec.containers
    → build_pod_injection_patch pod pod ≡ []
unfolding build_pod_injection_patch
build_pod_injection_patch-same pod d = rw (annotations_same pod.annotations) (spec_same pod.spec d)
