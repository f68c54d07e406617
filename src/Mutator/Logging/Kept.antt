-- ===== src/Mutator/Logging/Kept.antt =====
-- What the mutation for logs leaves as it was (MutateLoggingToPod).
use datakit_operator.Common.{
  Option, none, some, true, List, [], ◌∷◌, String, ◌≡◌, ◌≢◌, refl, sym, ap, ◌∙◌, ◌==◌,
  if◌then◌else◌, ◌⊎◌, inl, inr, is_some, lookup, ==-eq-false, Bool-cases,
}
use datakit_operator.Kubernetes.{Volume, Pod, empty_dir, plain_mount}
use datakit_operator.Manager.{add_volume, add_volume_mount}
use datakit_operator.Manager.Named.{Extends, Extends-refl, Extends-trans, add_named-Extends}
use datakit_operator.Config.Rules.{MutateRule}
use datakit_operator.Webhook.Patch.Apply.Annotations.{lookup-insert}
use datakit_operator.Injector.Added.{bare_containers, add_volume_mount-bare}
use datakit_operator.Mutator.Logging.{
  LogConfig, VolumePair, volume_pairs, parse_mount_paths, inject_empty_dir_volume,
  inject_log_mounts, inject_annotation_with_log, config_for, with_configs, mutate_logging,
}

-- The containers are as they were but for their mounts, the volumes stay and get others of new names behind
-- them, and only the annotation datakit/logs may differ.
abbrev pub LeavesRest : Pod → Pod → Type 0
LeavesRest pod new =
    (bare_containers new ≡ bare_containers pod)
    × Extends Volume.name pod.spec.volumes new.spec.volumes
    × ((k : String) → k ≢ "datakit/logs" → lookup k new.annotations ≡ lookup k pod.annotations)

leaves_all : (pod : Pod) → LeavesRest pod pod
leaves_all pod = (refl, Extends-refl Volume.name pod.spec.volumes, λ k n. refl)

LeavesRest-trans : (a b c : Pod) → LeavesRest a b → LeavesRest b c → LeavesRest a c
LeavesRest-trans a b c (cs, vs, xs) (ds, ws, ys) =
    (ds ∙ cs, Extends-trans Volume.name vs ws, λ k n. ys k n ∙ xs k n)

add_volume-LeavesRest : (v : Volume) (pod : Pod) → LeavesRest pod (add_volume v pod)
unfolding add_volume
add_volume-LeavesRest v pod = (refl, add_named-Extends Volume.name v pod.spec.volumes, λ k n. refl)

volumes-LeavesRest :
    (pairs : List VolumePair) (pod : Pod) → LeavesRest pod (inject_empty_dir_volume pairs pod)
unfolding inject_empty_dir_volume
volumes-LeavesRest [] pod = leaves_all pod
volumes-LeavesRest ((name, path) ∷ pairs) pod =
    let v : Volume = record { name = name; source = empty_dir } in
    LeavesRest-trans pod (add_volume v pod) (inject_empty_dir_volume pairs (add_volume v pod))
      (add_volume-LeavesRest v pod) (volumes-LeavesRest pairs (add_volume v pod))

add_mount-LeavesRest :
    (name path : String) (pod : Pod) → LeavesRest pod (add_volume_mount (plain_mount name path) pod)
unfolding add_volume_mount
add_mount-LeavesRest name path pod = (
  add_volume_mount-bare (plain_mount name path) pod,
  Extends-refl Volume.name pod.spec.volumes,
  λ k n. refl,
)

mounts-LeavesRest :
    (pairs : List VolumePair) (pod : Pod) → LeavesRest pod (inject_log_mounts pairs pod)
unfolding inject_log_mounts
mounts-LeavesRest [] pod = leaves_all pod
mounts-LeavesRest ((name, path) ∷ pairs) pod =
    let mounted : Pod = add_volume_mount (plain_mount name path) pod in
    LeavesRest-trans pod mounted (inject_log_mounts pairs mounted)
      (add_mount-LeavesRest name path pod) (mounts-LeavesRest pairs mounted)

annotation-LeavesRest :
    (config : String) (pod : Pod) → LeavesRest pod (inject_annotation_with_log config pod)
unfolding inject_annotation_with_log
annotation-LeavesRest config pod = (
  refl,
  Extends-refl Volume.name pod.spec.volumes,
  λ k n.
      lookup-insert k "datakit/logs" config pod.annotations
      ∙ ap (λ b. if b then some config else lookup k pod.annotations)
          (==-eq-false "datakit/logs" k (λ e. n (sym e))),
)

with_configs-LeavesRest :
    (config : String) (pod : Pod) (cs : Option (List LogConfig))
    → LeavesRest pod (with_configs config pod cs)
with_configs-LeavesRest config pod none = leaves_all pod
with_configs-LeavesRest config pod (some cs) =
    let pairs = volume_pairs 0 pod (parse_mount_paths cs) in
    let given : Pod = inject_empty_dir_volume pairs pod in
    let mounted : Pod = inject_log_mounts pairs given in
    LeavesRest-trans pod mounted (inject_annotation_with_log config mounted)
      (LeavesRest-trans pod given mounted (volumes-LeavesRest pairs pod)
        (mounts-LeavesRest pairs given))
      (annotation-LeavesRest config mounted)

-- The mutation for logs keeps the containers of the pod but for their mounts, keeps its volumes
-- and puts volumes of new names behind them, and changes no annotation but datakit/logs.
pub mutate_logging-LeavesRest :
    (unmarshal : String → Option (List LogConfig)) (rules : List (Option MutateRule))
    (namespace : String) (pod : Pod)
    → LeavesRest pod (mutate_logging unmarshal rules namespace pod)
unfolding mutate_logging
mutate_logging-LeavesRest unmarshal rules namespace pod =
    let config = config_for rules (if pod.namespace == "" then namespace else pod.namespace) pod in
    elim (Bool-cases (config == "")) [
      | inl no_rule ↦ rw no_rule (leaves_all pod)
      | inr given ↦ rw given (with_configs-LeavesRest config pod (unmarshal config))
    ]

abbrev IsMarked : Pod → Type 0
IsMarked pod = is_some (lookup "datakit/logs" pod.annotations) ≡ true

marked : (config : String) (pod : Pod) → IsMarked (inject_annotation_with_log config pod)
unfolding inject_annotation_with_log
marked config pod = rw (lookup-insert "datakit/logs" "datakit/logs" config pod.annotations) refl

with_configs-IsMarked :
    (config : String) (pod : Pod) (cs : Option (List LogConfig))
    → (with_configs config pod cs ≡ pod) ⊎ IsMarked (with_configs config pod cs)
with_configs-IsMarked config pod none = inl refl
with_configs-IsMarked config pod (some cs) = inr (marked config _)

mutate_logging-IsMarked :
    (unmarshal : String → Option (List LogConfig)) (rules : List (Option MutateRule))
    (namespace : String) (pod : Pod)
    → (mutate_logging unmarshal rules namespace pod ≡ pod)
      ⊎ IsMarked (mutate_logging unmarshal rules namespace pod)
unfolding mutate_logging
mutate_logging-IsMarked unmarshal rules namespace pod =
    let config = config_for rules (if pod.namespace == "" then namespace else pod.namespace) pod in
    elim (Bool-cases (config == "")) [
      | inl no_rule ↦ rw no_rule (inl refl)
      | inr given ↦ rw given (with_configs-IsMarked config pod (unmarshal config))
    ]

config_for-marked :
    (rules : List (Option MutateRule)) (namespace : String) (pod : Pod)
    → IsMarked pod
    → config_for rules namespace pod ≡ ""
unfolding config_for
config_for-marked rules namespace pod h = rw h refl

marked_again :
    (unmarshal : String → Option (List LogConfig)) (rules : List (Option MutateRule))
    (namespace : String) (pod : Pod)
    → IsMarked pod
    → mutate_logging unmarshal rules namespace pod ≡ pod
unfolding mutate_logging
marked_again unmarshal rules namespace pod h =
    rw (config_for-marked rules (if pod.namespace == "" then namespace else pod.namespace) pod h)
      refl

-- A second mutation for logs, with the same rules, changes nothing.
pub mutate_logging_again :
    (unmarshal : String → Option (List LogConfig)) (rules : List (Option MutateRule))
    (namespace : String) (pod : Pod)
    → mutate_logging unmarshal rules namespace (mutate_logging unmarshal rules namespace pod)
      ≡ mutate_logging unmarshal rules namespace pod
mutate_logging_again unmarshal rules namespace pod =
    elim (mutate_logging-IsMarked unmarshal rules namespace pod) [
      | inl same ↦ ap (mutate_logging unmarshal rules namespace) same
      | inr done ↦
          marked_again unmarshal rules namespace (mutate_logging unmarshal rules namespace pod) done
    ]
