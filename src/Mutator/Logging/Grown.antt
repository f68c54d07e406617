-- ===== src/Mutator/Logging/Grown.antt =====
-- The growth of a pod by the mutation for logs.
use mathlib.Core.Bool.{false≢true}
use datakit_operator.Webhook.Patch.Apply.Annotations.{lookup-insert}
use datakit_operator.Common.{
  true, false, is_some, lookup, insert, ◌≡◌, ◌∙◌, ap, sym, inl, inr, Bool-cases, ==-eq-false,
  Option, none, some, List, [], ◌∷◌, String, ◌==◌, refl, if-cases, if◌then◌else◌,
}
use datakit_operator.Kubernetes.{Container, Volume, Pod, empty_dir, plain_mount}
use datakit_operator.Manager.{add_volume, add_volume_mount}
use datakit_operator.Manager.Named.{Extends-refl}
use datakit_operator.Config.Rules.{MutateRule}
use datakit_operator.Injector.Grown.{Joined-refl, Grows, Grows-refl, Grows-trans}
use datakit_operator.Injector.Grown.Steps.{add_volume-Grows, add_volume_mount-Grows}
use datakit_operator.Mutator.Logging.{
  LogConfig, VolumePair, volume_pairs, parse_mount_paths, inject_empty_dir_volume,
  inject_log_mounts, inject_annotation_with_log, config_for, with_configs, mutated_by,
  mutate_logging,
}

volumes-Grows :
    (pairs : List VolumePair) (pod : Pod) → Grows [] pod (inject_empty_dir_volume pairs pod)
unfolding inject_empty_dir_volume
volumes-Grows [] pod = Grows-refl [] pod
volumes-Grows ((name, path) ∷ pairs) pod =
    Grows-trans (add_volume-Grows _ pod) (volumes-Grows pairs _)

mounts-Grows : (pairs : List VolumePair) (pod : Pod) → Grows [] pod (inject_log_mounts pairs pod)
unfolding inject_log_mounts
mounts-Grows [] pod = Grows-refl [] pod
mounts-Grows ((name, path) ∷ pairs) pod =
    Grows-trans (add_volume_mount-Grows _ pod) (mounts-Grows pairs _)

volumes-annotations :
    (pairs : List VolumePair) (pod : Pod)
    → (inject_empty_dir_volume pairs pod).annotations ≡ pod.annotations
unfolding inject_empty_dir_volume add_volume
volumes-annotations [] pod = refl
volumes-annotations ((name, path) ∷ pairs) pod =
    volumes-annotations pairs (add_volume (record { name = name; source = empty_dir }) pod)

mounts-annotations :
    (pairs : List VolumePair) (pod : Pod)
    → (inject_log_mounts pairs pod).annotations ≡ pod.annotations
unfolding inject_log_mounts add_volume_mount
mounts-annotations [] pod = refl
mounts-annotations ((name, path) ∷ pairs) pod =
    mounts-annotations pairs (add_volume_mount (plain_mount name path) pod)

abbrev IsUnannotated : Pod → Type 0
IsUnannotated pod = is_some (lookup "datakit/logs" pod.annotations) ≡ false

inserted-keeps :
    (k v config : String) (m : List (String × String))
    → is_some (lookup "datakit/logs" m) ≡ false
    → lookup k m ≡ some v
    → lookup k (insert "datakit/logs" config m) ≡ some v
inserted-keeps k v config m absent found =
    let there : is_some (lookup k m) ≡ true = ap is_some found in
    lookup-insert k "datakit/logs" config m
    ∙ ap (λ b. if b then some config else lookup k m)
        (==-eq-false "datakit/logs" k
          (λ e. false≢true (sym absent ∙ ap (λ s. is_some (lookup s m)) e ∙ there)))
    ∙ found

annotation-Grows :
    (config : String) (pod : Pod)
    → IsUnannotated pod
    → Grows [] pod (inject_annotation_with_log config pod)
unfolding inject_annotation_with_log
annotation-Grows config pod absent = record {
  containers = Joined-refl [] pod.spec.containers;
  inits = Extends-refl Container.name pod.spec.init_containers;
  volumes = Extends-refl Volume.name pod.spec.volumes;
  annotations = λ k v found. inserted-keeps k v config pod.annotations absent found;
  others = refl;
}

with_configs-Grows :
    (config : String) (pod : Pod) (cs : Option (List LogConfig))
    → IsUnannotated pod
    → Grows [] pod (with_configs config pod cs)
with_configs-Grows config pod none absent = Grows-refl [] pod
with_configs-Grows config pod (some cs) absent =
    let pairs : List VolumePair = volume_pairs 0 pod (parse_mount_paths cs) in
    let ready : Pod = inject_log_mounts pairs (inject_empty_dir_volume pairs pod) in
    let same : ready.annotations ≡ pod.annotations =
      mounts-annotations pairs (inject_empty_dir_volume pairs pod)
      ∙ volumes-annotations pairs pod in
    Grows-trans (volumes-Grows pairs pod) (
      Grows-trans (mounts-Grows pairs (inject_empty_dir_volume pairs pod))
        (annotation-Grows config ready (ap (λ m. is_some (lookup "datakit/logs" m)) same ∙ absent)))

mutated_by-Grows :
    (unmarshal : String → Option (List LogConfig)) (config : String) (pod : Pod)
    → IsUnannotated pod
    → Grows [] pod (mutated_by unmarshal config pod)
mutated_by-Grows unmarshal config pod absent =
    if-cases (Grows [] pod) (config == "") pod _ (Grows-refl [] pod)
      (with_configs-Grows config pod (unmarshal config) absent)

config_for-annotated :
    (rules : List (Option MutateRule)) (namespace : String) (pod : Pod)
    → is_some (lookup "datakit/logs" pod.annotations) ≡ true
    → config_for rules namespace pod ≡ ""
unfolding config_for
config_for-annotated rules namespace pod there = rw there refl

pub mutate_logging-Grows :
    (unmarshal : String → Option (List LogConfig)) (rules : List (Option MutateRule))
    (namespace : String) (pod : Pod)
    → Grows [] pod (mutate_logging unmarshal rules namespace pod)
unfolding mutate_logging
mutate_logging-Grows unmarshal rules namespace pod =
    let own : String = if pod.namespace == "" then namespace else pod.namespace in
    elim (Bool-cases (is_some (lookup "datakit/logs" pod.annotations))) [
      | inl there ↦ rw (config_for-annotated rules own pod there) (Grows-refl [] pod)
      | inr absent ↦ mutated_by-Grows unmarshal (config_for rules own pod) pod absent
    ]
