-- ===== src/Injector/DdTrace/Process.antt =====
-- The injection of the Datadog library as a whole: `process` of apis/webhook/injector/ddtrace.go, and the
-- repair of a pod that has the init container already.
use datakit_operator.Common.{
  Option, none, some, Bool, true, false, not, ◌&&◌, List, [], ◌∷◌, map, String, ◌==◌, if◌then◌else◌,
  any,
}
use datakit_operator.Kubernetes.{Container, Pod, ResourceRequirements}
use datakit_operator.Manager.{
  with_containers, add_init_container, contains_init_container, is_empty_dir_volume,
}
use datakit_operator.EnvBuilder.{build_envs, filter_and_set_resource_field_ref}
use datakit_operator.Config.Resource.{pull_policy}
use datakit_operator.Config.Rules.{DdTraceRule}
use datakit_operator.Injector.Setting.{Setting, namespace_of, changed}
use datakit_operator.Injector.Utils.{container_resources}
use datakit_operator.Injector.Image.{replace_image_version}
use datakit_operator.Injector.DdTrace.Options.{append_java_agent_if_missing}
use datakit_operator.Injector.DdTrace.{
  ddtrace_init_container_name, ddtrace_volume_name, ddtrace_mount_path, java_tool_options_key,
  Library, library_of, Matched, matching_rule, inject_env, inject_config, php_loader_flavor,
  init_container, inject_global_envs, inject_global_volume,
}
use mathlib.Core.Option

-- `hasDDTraceLibraryMount`
unfoldable pub has_library_mount : Container → Bool
has_library_mount c =
    any (λ m. m.name == ddtrace_volume_name && m.mount_path == ddtrace_mount_path) c.volume_mounts

abbrev pub or_same : Container → Option Container → Container
or_same c none = c
or_same c (some new) = new

-- A container whose variable is a reference is passed over.
unfoldable pub repair_container : Container → Container
unfolding has_library_mount inject_env append_java_agent_if_missing
repair_container c =
    if has_library_mount c
    then or_same c (inject_env java_tool_options_key append_java_agent_if_missing c)
    else c

-- The first init container of the name mounts the library.
unfoldable pub init_has_mount : List Container → Bool
unfolding has_library_mount
init_has_mount [] = false
init_has_mount (c ∷ cs) =
    if c.name == ddtrace_init_container_name then has_library_mount c else init_has_mount cs

abbrev pub if_changed : Pod → Pod → Pod
if_changed pod mutated = if changed pod mutated then mutated else pod

unfoldable pub repair_java_agent_env : Pod → Pod
unfolding is_empty_dir_volume init_has_mount repair_container changed
repair_java_agent_env pod =
    if not (is_empty_dir_volume ddtrace_volume_name pod)
    then pod
    else if not (init_has_mount pod.spec.init_containers)
    then pod
    else if not (any has_library_mount pod.spec.containers)
    then pod
    else if_changed pod (with_containers pod (map repair_container pod.spec.containers))

-- The pod after everything was injected into a copy of it; where the library's part fails the pod stays.
abbrev pub completed : Setting → DdTraceRule → Pod → Option Pod → Pod
completed s rule pod none = pod
completed s rule pod (some mutated) =
    let new = inject_global_volume mutated in
    inject_global_envs
      (filter_and_set_resource_field_ref (build_envs s.is_config_map_key rule.rule.envs true)
        new.spec.containers)
      new

-- Whether a rule was selected, and the pod.
abbrev pub Selected : Type 0
Selected = Bool × Pod

abbrev pub with_resources :
    Setting → DdTraceRule → String → Library → Pod → Option ResourceRequirements → Option Selected
with_resources s rule version library pod none = none
with_resources s rule version library pod (some resources) = some (
  true,
  completed s rule pod (
      inject_config library (
        add_init_container
          (init_container library (php_loader_flavor rule)
            (replace_image_version rule.rule.image version)
            (pull_policy rule.rule.image_pull_policy) resources)
          pod)),
)

abbrev pub with_library : Setting → DdTraceRule → String → Pod → Option Library → Option Selected
with_library s rule version pod none = some (true, pod)
with_library s rule version pod (some library) =
    with_resources s rule version library pod (container_resources s.compilers rule.rule.resources)

abbrev pub reinvoked : DdTraceRule → Pod → Pod
reinvoked rule pod = if rule.language == "java" then repair_java_agent_env pod else pod

abbrev pub inject_selected : Setting → Pod → Matched → Option Selected
inject_selected s pod none = some (false, pod)
inject_selected s pod (some (rule, version)) =
    if contains_init_container ddtrace_init_container_name pod
    then some (true, reinvoked rule pod)
    else with_library s rule version pod (library_of rule.language)

-- `process`
unfoldable pub select_ddtrace : Setting → List (Option DdTraceRule) → String → Pod → Option Selected
unfolding matching_rule repair_java_agent_env inject_config init_container inject_global_envs
    inject_global_volume container_resources replace_image_version add_init_container pull_policy
    library_of contains_init_container php_loader_flavor build_envs
    filter_and_set_resource_field_ref
select_ddtrace s rules namespace pod =
    inject_selected s pod (matching_rule rules (namespace_of namespace pod) pod)

-- `injectDDTraceToPod`: whether a rule was selected, whether the pod differs, and the pod
unfoldable pub inject_ddtrace_to_pod :
    Setting → List (Option DdTraceRule) → String → Pod → Option (Bool × Bool × Pod)
unfolding select_ddtrace changed
inject_ddtrace_to_pod s rules namespace pod =
    Option.map (λ r. (r.0, changed pod r.1, r.1)) (select_ddtrace s rules namespace pod)
