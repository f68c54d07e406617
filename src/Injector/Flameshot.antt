-- ===== src/Injector/Flameshot.antt =====
-- apis/webhook/injector/flameshot.go: a container that profiles the processes of the pod.
pub mod Grown
pub mod Served
use datakit_operator.Common.{
  zero, suc, Option, none, some, Bool, true, false, not, ◌&&◌, ◌||◌, List, [], ◌∷◌, ◌++◌, map,
  String, ◌==◌, if◌then◌else◌, insert, any,
}
use datakit_operator.Common.Text.{◌⁀◌, has_prefix}
use datakit_operator.Common.FilePath.{clean}
use datakit_operator.Common.Int.{ℤ, pos, negsuc}
use datakit_operator.Common.Decimal.{parse_int32, format_int}
use datakit_operator.Kubernetes.{
  EnvVar, Container, PodSpec, Pod, SecurityContext, ResourceRequirements, ContainerPort, empty_dir,
  empty_container, plain_env, plain_mount,
}
use datakit_operator.Manager.{
  add_container, contains_container, add_volume, add_volume_mount, add_or_update_env,
  add_or_update_envs, replace_existing,
}
use datakit_operator.EnvBuilder.{build_envs, filter_and_set_resource_field_ref}
use datakit_operator.Config.Resource.{pull_policy}
use datakit_operator.Config.Rules.{FlameshotRule, match_inject_rule}
use datakit_operator.Webhook.Mutate.{check_annotation_is_true}
use datakit_operator.Injector.Setting.{Setting, namespace_of, changed}
use datakit_operator.Injector.Utils.{container_resources}
use datakit_operator.Injector.Profiler.{reset_spec}
use mathlib.Core.Option

abbrev pub flameshot_container_name : String
flameshot_container_name = "datakit-flameshot"

unfoldable pub matching_rule : List (Option FlameshotRule) → String → Pod → Option FlameshotRule
unfolding check_annotation_is_true contains_container match_inject_rule
matching_rule rules namespace pod =
    if not (check_annotation_is_true pod.annotations "admission.datakit/flameshot.enabled")
    then none
    else if contains_container flameshot_container_name pod
    then none
    else match_inject_rule FlameshotRule.rule rules namespace pod.labels

unfoldable pub flameshot_envs : Setting → FlameshotRule → Pod → List EnvVar
unfolding build_envs filter_and_set_resource_field_ref add_or_update_envs add_or_update_env
flameshot_envs s rule pod =
    add_or_update_env
      (add_or_update_envs []
        (filter_and_set_resource_field_ref (build_envs s.is_config_map_key rule.rule.envs true)
          pod.spec.containers)
        (some replace_existing))
      (plain_env "FLAMESHOT_PROCESSES" rule.processes) (some replace_existing)

-- `getFlameshotProfilingPath`: the first variable of the name
unfoldable pub profiling_path : List EnvVar → String
unfolding clean
profiling_path [] = ""
profiling_path (e ∷ es) =
    if e.name == "FLAMESHOT_PROFILING_PATH" then clean e.value else profiling_path es

abbrev port_or : ℤ → Option ℤ → ℤ
port_or rest none = rest
port_or rest (some port) = port

-- `getFlameshotPort`: the first variable of the name that parses, and 0 if there is none
unfoldable pub flameshot_port : List EnvVar → ℤ
unfolding parse_int32
flameshot_port [] = pos 0
flameshot_port (e ∷ es) =
    if e.name == "FLAMESHOT_HTTP_LOCAL_PORT"
    then port_or (flameshot_port es) (parse_int32 e.value)
    else flameshot_port es

abbrev pub is_zero : ℤ → Bool
is_zero (pos zero) = true
is_zero _ = false

unfoldable pub flameshot_container :
    String → String → ResourceRequirements → List EnvVar → ℤ → Container
flameshot_container image policy resources envs port =
    record (empty_container flameshot_container_name) {
      image = image;
      command = "/flameshot/flameshot" ∷ [];
      image_pull_policy = policy;
      security_context =
          some (record {
            capabilities = "SYS_PTRACE" ∷ [];
            run_as_non_root = none;
            run_as_user = none;
          });
      ports = record { name = "flameshot-port"; container_port = port; protocol = "TCP" } ∷ [];
      resources = resources;
      env = envs;
    }

unfoldable pub inject_volume : Pod → Pod
unfolding add_volume
inject_volume pod = add_volume (record { name = "flameshot-volume"; source = empty_dir }) pod

unfoldable pub inject_volume_mount : String → Pod → Pod
unfolding add_volume_mount
inject_volume_mount path pod = add_volume_mount (plain_mount "flameshot-volume" path) pod

unfoldable pub has_prometheus_annotation : List (String × String) → Bool
unfolding has_prefix
has_prometheus_annotation annotations = any (λ kv. has_prefix kv.0 "prometheus.io/") annotations

unfoldable pub add_prometheus_annotations : ℤ → Pod → Pod
unfolding has_prometheus_annotation format_int
add_prometheus_annotations port pod =
    if has_prometheus_annotation pod.annotations then pod else record pod {
      annotations = insert "prometheus.io/param_measurement" "flameshot" (
          insert "prometheus.io/path" "/metrics" (
            insert "prometheus.io/scheme" "http" (
              insert "prometheus.io/port" (format_int port)
                (insert "prometheus.io/scrape" "true" pod.annotations))));
    }

-- The end of `process`, from `resetSpec` on; `none` where `setContainerResources` panics.
abbrev pub finish :
    FlameshotRule → List EnvVar → String → ℤ → Pod → Option ResourceRequirements → Option Pod
finish rule envs path port pod none = none
finish rule envs path port pod (some resources) =
    let new = inject_volume_mount path (
      inject_volume (
        add_container
          (flameshot_container rule.rule.image (pull_policy rule.rule.image_pull_policy) resources
            envs port)
          (reset_spec pod))) in
    some (if rule.enable_prometheus_annotations then add_prometheus_annotations port new else new)

abbrev pub with_envs : Setting → FlameshotRule → Pod → List EnvVar → Option Pod
with_envs s rule pod envs =
    if profiling_path envs == ""
    then some pod
    else if is_zero (flameshot_port envs)
    then some pod
    else finish rule envs (profiling_path envs) (flameshot_port envs) pod
        (container_resources s.compilers rule.rule.resources)

abbrev pub inject_matched : Setting → Pod → Option FlameshotRule → Option Pod
inject_matched s pod none = some pod
inject_matched s pod (some rule) =
    if rule.processes == "" then some pod else with_envs s rule pod (flameshot_envs s rule pod)

-- `process`
unfoldable pub inject_flameshot : Setting → List (Option FlameshotRule) → String → Pod → Option Pod
unfolding matching_rule flameshot_envs profiling_path flameshot_port flameshot_container
    inject_volume inject_volume_mount add_prometheus_annotations container_resources add_container
    pull_policy reset_spec
inject_flameshot s rules namespace pod =
    inject_matched s pod (matching_rule rules (namespace_of namespace pod) pod)

-- `InjectFlameshotToPod`: the pod after injection, and whether it differs
unfoldable pub inject_flameshot_to_pod :
    Setting → List (Option FlameshotRule) → String → Pod → Option (Bool × Pod)
unfolding inject_flameshot changed
inject_flameshot_to_pod s rules namespace pod =
    Option.map (λ new. (changed pod new, new)) (inject_flameshot s rules namespace pod)
