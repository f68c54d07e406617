-- ===== src/Mutator/Logging.antt =====
-- apis/webhook/mutator/logging.go: the annotation datakit/logs, and a volume for each directory of log files.
pub mod Grown
pub mod Kept
use datakit_operator.Common.{
  ℕ, suc, Option, none, some, Bool, true, false, not, ◌&&◌, ◌||◌, List, [], ◌∷◌, ◌++◌, map, String,
  ◌==◌, if◌then◌else◌, is_some, lookup, insert,
}
use datakit_operator.Common.Text.{◌⁀◌, before_char, contains}
use datakit_operator.Common.FilePath.{dir, itoa}
use datakit_operator.Kubernetes.{Volume, VolumeMount, Pod, empty_dir, plain_mount}
use datakit_operator.Manager.{
  add_named, add_volume, add_volume_mount, find_volume_mount_path, is_empty_dir_volume,
}
use datakit_operator.Config.Selector.{Labels}
use datakit_operator.Config.Rules.{MutateRule, match_mutate_rule}

pub record LogConfig : Type 0 where
  pub disable : Bool
  pub type : String
  pub path : String

-- The directory that has to be mounted, with 42 for an asterisk.
abbrev directory : String → String
directory path = if contains path "*" then dir (before_char 42 path) else dir path

mount_paths_from : List LogConfig → List String
unfolding contains dir before_char
mount_paths_from [] = []
mount_paths_from (c ∷ cs) =
    if c.disable || not (c.type == "file")
    then mount_paths_from cs
    else directory c.path ∷ mount_paths_from cs

-- `unique` of this package, which also leaves out the empty text
unique_paths : List String → List String → List String
unfolding add_named
unique_paths met [] = met
unique_paths met (s ∷ slice) =
    unique_paths (if s == "" then met else add_named (λ p. p) s met) slice

unfoldable pub parse_mount_paths : List LogConfig → List String
unfolding mount_paths_from unique_paths
parse_mount_paths cs = unique_paths [] (mount_paths_from cs)

abbrev pub VolumePair : Type 0
VolumePair = String × String

abbrev volume_for : ℕ → Pod → Option String → Option String
volume_for i pod none = some ("datakit-logs-volume-" ⁀ itoa i)
volume_for i pod (some name) = if is_empty_dir_volume name pod then some name else none

abbrev with_pair : Option String → String → List VolumePair → List VolumePair
with_pair none path rest = rest
with_pair (some name) path rest = (name, path) ∷ rest

-- `getVolumePairs`, from index `i`: names and paths of the volumes to mount
unfoldable pub volume_pairs : ℕ → Pod → List String → List VolumePair
unfolding find_volume_mount_path is_empty_dir_volume itoa
volume_pairs i pod [] = []
volume_pairs i pod (path ∷ paths) =
    with_pair (volume_for i pod (find_volume_mount_path path pod)) path
      (volume_pairs (suc i) pod paths)

unfoldable pub inject_empty_dir_volume : List VolumePair → Pod → Pod
unfolding add_volume
inject_empty_dir_volume [] pod = pod
inject_empty_dir_volume ((name, path) ∷ pairs) pod =
    inject_empty_dir_volume pairs (add_volume (record { name = name; source = empty_dir }) pod)

unfoldable pub inject_log_mounts : List VolumePair → Pod → Pod
unfolding add_volume_mount
inject_log_mounts [] pod = pod
inject_log_mounts ((name, path) ∷ pairs) pod =
    inject_log_mounts pairs (add_volume_mount (plain_mount name path) pod)

unfoldable pub inject_annotation_with_log : String → Pod → Pod
inject_annotation_with_log config pod = record pod {
  annotations = insert "datakit/logs" config pod.annotations;
}

abbrev config_of : Option MutateRule → String
config_of none = ""
config_of (some rule) = rule.config

-- `shouldInject`: the text of the configuration, empty for `false`
unfoldable pub config_for : List (Option MutateRule) → String → Pod → String
unfolding match_mutate_rule
config_for rules namespace pod =
    if is_some (lookup "datakit/logs" pod.annotations)
    then ""
    else config_of (match_mutate_rule rules namespace pod.labels)

-- `json.Unmarshal` answers `none` for its error.
abbrev with_configs : String → Pod → Option (List LogConfig) → Pod
with_configs config pod none = pod
with_configs config pod (some cs) =
    let pairs = volume_pairs 0 pod (parse_mount_paths cs) in
    inject_annotation_with_log config (inject_log_mounts pairs (inject_empty_dir_volume pairs pod))

abbrev pub mutated_by : (String → Option (List LogConfig)) → String → Pod → Pod
mutated_by unmarshal config pod =
    if config == "" then pod else with_configs config pod (unmarshal config)

-- `process`
unfoldable pub mutate_logging :
    (String → Option (List LogConfig)) → List (Option MutateRule) → String → Pod → Pod
unfolding config_for inject_annotation_with_log inject_log_mounts inject_empty_dir_volume
    volume_pairs parse_mount_paths
mutate_logging unmarshal rules namespace pod =
    mutated_by unmarshal
      (config_for rules (if pod.namespace == "" then namespace else pod.namespace) pod) pod
