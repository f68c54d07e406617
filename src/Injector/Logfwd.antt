-- ===== src/Injector/Logfwd.antt =====
-- apis/webhook/injector/logfwd.go: a container that forwards the log files of the pod.
pub mod Sources
pub mod Grown
pub mod Mounted
pub mod Again
use mathlib.Core.Option
use datakit_operator.Common.{
  ℕ, zero, suc, Option, none, some, Bool, true, false, not, ◌&&◌, List, [], ◌∷◌, ◌++◌, map, String,
  ◌==◌, if◌then◌else◌, lookup, is_some,
}
use datakit_operator.Common.Text.{◌⁀◌, contains, before_char}
use datakit_operator.Common.FilePath.{clean, dir, itoa}
use datakit_operator.Kubernetes.{
  EnvVar, VolumeMount, Volume, Container, PodSpec, Pod, ResourceRequirements, empty_dir,
  downward_api, empty_container, plain_env, plain_mount,
}
use datakit_operator.Manager.{
  add_container, contains_container, add_volume, add_volume_mount, find_volume_mount_path,
  is_empty_dir_volume, add_or_update_env, add_or_update_envs, replace_existing,
}
use datakit_operator.EnvBuilder.{build_envs, filter_and_set_resource_field_ref}
use datakit_operator.Config.Resource.{pull_policy}
use datakit_operator.Config.Rules.{LogfwdRule, match_inject_rule}
use datakit_operator.Webhook.Mutate.{check_annotation_is_true}
use datakit_operator.Injector.Setting.{Setting, changed}
use datakit_operator.Injector.Utils.{container_resources, unique}
use datakit_operator.Injector.Logfwd.Sources.{
  get_mount_path, get_mount_paths, Decoders, instances_annotation_key, Extracted,
  extract_instances_config, extract_log_configs_config,
}

abbrev pub logfwd_container_name : String
logfwd_container_name = "datakit-logfwd"

-- A rule of the first version wants the annotation.
abbrev pub with_annotation : Pod → Option LogfwdRule → Option LogfwdRule
with_annotation pod none = none
with_annotation pod (some rule) =
    if rule.check_annotation && not (is_some (lookup instances_annotation_key pod.annotations))
    then none
    else some rule

-- The namespace is that of the pod, also where it is empty.
unfoldable pub matching_rule : List (Option LogfwdRule) → Pod → Option LogfwdRule
unfolding check_annotation_is_true contains_container match_inject_rule
matching_rule rules pod =
    if not (check_annotation_is_true pod.annotations "admission.datakit/logfwd.enabled")
    then none
    else if contains_container logfwd_container_name pod
    then none
    else with_annotation pod (match_inject_rule LogfwdRule.rule rules pod.namespace pod.labels)

abbrev with_config : String → Extracted → List EnvVar → List EnvVar
with_config key none envs = envs
with_config key (some (config, paths)) envs =
    add_or_update_env envs (plain_env key config) (some replace_existing)

abbrev paths_of : Extracted → List String
paths_of none = []
paths_of (some (config, paths)) = paths

unfoldable pub logfwd_envs : Setting → Decoders → LogfwdRule → Pod → List EnvVar
unfolding build_envs filter_and_set_resource_field_ref add_or_update_envs add_or_update_env
    extract_instances_config extract_log_configs_config
logfwd_envs s d rule pod = with_config "LOGFWD_LOG_CONFIGS" (extract_log_configs_config d rule) (
    with_config "LOGFWD_JSON_CONFIG" (extract_instances_config d pod) (
      add_or_update_envs []
        (filter_and_set_resource_field_ref (build_envs s.is_config_map_key rule.rule.envs true)
          pod.spec.containers)
        (some replace_existing)))

unfoldable pub logfwd_paths : Decoders → LogfwdRule → Pod → List String
unfolding extract_instances_config extract_log_configs_config get_mount_paths unique
logfwd_paths d rule pod = unique (
    paths_of (extract_instances_config d pod)
    ++ (paths_of (extract_log_configs_config d rule) ++ get_mount_paths rule.log_volume_paths))

-- The name and the path of a volume to mount.
abbrev pub VolumePair : Type 0
VolumePair = String × String

-- `none` for a path whose mount is no empty directory.
abbrev volume_for : ℕ → Pod → Option String → Option String
volume_for i pod none = some ("datakit-logfwd-volume-" ⁀ itoa i)
volume_for i pod (some name) = if is_empty_dir_volume name pod then some name else none

abbrev with_pair : Option String → String → List VolumePair → List VolumePair
with_pair none path rest = rest
with_pair (some name) path rest = (name, path) ∷ rest

-- `getVolumePairs`, from index `i`
unfoldable pub get_volume_pairs : ℕ → Pod → List String → List VolumePair
unfolding find_volume_mount_path is_empty_dir_volume itoa
get_volume_pairs i pod [] = []
get_volume_pairs i pod (path ∷ paths) =
    with_pair (volume_for i pod (find_volume_mount_path path pod)) path
      (get_volume_pairs (suc i) pod paths)

abbrev pub pod_info : Volume
pod_info = record { name = "datakit-pod-info"; source = downward_api "labels" "metadata.labels" }

add_empty_dirs : List VolumePair → Pod → Pod
unfolding add_volume
add_empty_dirs [] pod = pod
add_empty_dirs ((name, path) ∷ pairs) pod =
    add_empty_dirs pairs (add_volume (record { name = name; source = empty_dir }) pod)

unfoldable pub inject_volume : List VolumePair → Pod → Pod
unfolding add_empty_dirs add_volume
inject_volume pairs pod = add_volume pod_info (add_empty_dirs pairs pod)

unfoldable pub inject_volume_mount : List VolumePair → Pod → Pod
unfolding add_volume_mount
inject_volume_mount [] pod = pod
inject_volume_mount ((name, path) ∷ pairs) pod =
    inject_volume_mount pairs (add_volume_mount (plain_mount name path) pod)

abbrev read_only_mount : VolumePair → VolumeMount
read_only_mount (name, path) = record (plain_mount name path) { read_only = true }

unfoldable pub logfwd_container :
    String → String → ResourceRequirements → List EnvVar → List VolumePair → Container
logfwd_container image policy resources envs pairs =
    record (empty_container logfwd_container_name) {
      image = image;
      image_pull_policy = policy;
      resources = resources;
      env = envs;
      volume_mounts =
          map read_only_mount pairs ++ read_only_mount ("datakit-pod-info", "/etc/podinfo") ∷ [];
    }

-- The end of `process`; `none` where `setContainerResources` panics.
abbrev pub finish :
    LogfwdRule → List EnvVar → List VolumePair → Pod → Option ResourceRequirements → Option Pod
finish rule envs pairs pod none = none
finish rule envs pairs pod (some resources) = some (
    add_container
      (logfwd_container rule.rule.image (pull_policy rule.rule.image_pull_policy) resources envs
        pairs)
      (inject_volume_mount pairs (inject_volume pairs pod)))

abbrev pub inject_matched : Setting → Decoders → Pod → Option LogfwdRule → Option Pod
inject_matched s d pod none = some pod
inject_matched s d pod (some rule) =
    finish rule (logfwd_envs s d rule pod) (get_volume_pairs 0 pod (logfwd_paths d rule pod)) pod
      (container_resources s.compilers rule.rule.resources)

-- `process`
unfoldable pub inject_logfwd : Setting → Decoders → List (Option LogfwdRule) → Pod → Option Pod
unfolding matching_rule logfwd_envs logfwd_paths get_volume_pairs inject_volume inject_volume_mount
    logfwd_container container_resources add_container pull_policy
inject_logfwd s d rules pod = inject_matched s d pod (matching_rule rules pod)

-- `InjectLogfwdToPod`: whether the pod differs, and the pod
unfoldable pub inject_logfwd_to_pod :
    Setting → Decoders → List (Option LogfwdRule) → Pod → Option (Bool × Pod)
unfolding inject_logfwd changed
inject_logfwd_to_pod s d rules pod =
    Option.map (λ new. (changed pod new, new)) (inject_logfwd s d rules pod)
