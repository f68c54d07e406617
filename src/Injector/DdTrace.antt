-- ===== src/Injector/DdTrace.antt =====
-- apis/webhook/injector/ddtrace.go: the tracing library of Datadog, copied by an init container into a
-- volume that the application containers mount. A change that fails is the result `none`, and so is a panic
-- of `MustParse` in `process`.
pub mod Grown
pub mod Options
pub mod Process
pub mod Variables
pub mod Agents
pub mod Repaired
pub mod Outer
pub mod Finished
pub mod Again
pub mod Installed
use datakit_operator.Common.{
  Option, none, some, Bool, true, false, not, ◌&&◌, ◌||◌, List, [], ◌∷◌, ◌++◌, map, String, ◌==◌,
  if◌then◌else◌, lookup, any, is_some,
}
use datakit_operator.Common.Text.{◌⁀◌}
use datakit_operator.Kubernetes.{
  EnvVar, VolumeMount, Container, PodSpec, Pod, ResourceRequirements, empty_dir, empty_container,
  plain_env, plain_mount,
}
use datakit_operator.Manager.{
  with_containers, add_init_container, contains_init_container, add_volume, add_volume_mount,
  is_empty_dir_volume, add_or_update_env, keep_existing,
}
use datakit_operator.EnvBuilder.{build_envs, filter_and_set_resource_field_ref}
use datakit_operator.Config.Resource.{pull_policy}
use datakit_operator.Config.Rules.{DdTraceRule, match_all_inject_rules}
use datakit_operator.Webhook.Mutate.{check_annotation_is_true}
use datakit_operator.Injector.Setting.{Setting, namespace_of, changed}
use datakit_operator.Injector.Utils.{container_resources, append_kv_pairs}
use datakit_operator.Injector.Image.{replace_image_version}
use datakit_operator.Injector.DdTrace.Options.{
  append_java_agent_if_missing, append_option_if_missing, python_path, php_scan_dir,
  php_package_path, nodejs_init_option,
}
use mathlib.Core.Option

abbrev pub ddtrace_init_container_name : String
ddtrace_init_container_name = "datakit-lib-init"

abbrev pub otel_init_container_name : String
otel_init_container_name = "datakit-otel-lib-init"

abbrev pub ddtrace_volume_name : String
ddtrace_volume_name = "datakit-auto-instrument"

abbrev pub ddtrace_mount_path : String
ddtrace_mount_path = "/datadog-lib"

abbrev pub java_tool_options_key : String
java_tool_options_key = "JAVA_TOOL_OPTIONS"

-- The languages that have a library.
pub data Library : Type 0 where
  java python php nodejs : Library

unfoldable pub library_of : String → Option Library
library_of l =
    if l == "java"
    then some java
    else if l == "python"
    then some python
    else if l == "php"
    then some php
    else if l == "nodejs"
    then some nodejs
    else none

-- A rule and the version that an annotation asks for, empty for none.
abbrev pub Matched : Type 0
Matched = Option (DdTraceRule × String)

abbrev pub if_version : DdTraceRule → Option String → Matched → Matched
if_version rule none rest = rest
if_version rule (some version) rest = some (rule, version)

-- The loop over the rules that match.
unfoldable pub first_rule : List (String × String) → List DdTraceRule → Matched
first_rule annotations [] = none
first_rule annotations (rule ∷ rules) =
    if rule.check_annotation
    then if_version rule
        (lookup ("admission.datakit/" ⁀ rule.language ⁀ "-lib.version") annotations)
        (first_rule annotations rules)
    else some (rule, "")

unfoldable pub matching_rule : List (Option DdTraceRule) → String → Pod → Matched
unfolding check_annotation_is_true contains_init_container match_all_inject_rules first_rule
matching_rule rules namespace pod =
    if not (check_annotation_is_true pod.annotations "admission.datakit/ddtrace.enabled")
    then none
    else if contains_init_container otel_init_container_name pod
    then none
    else first_rule pod.annotations
        (match_all_inject_rules DdTraceRule.rule rules namespace pod.labels)

-- The first variable of the name is defined by a reference.
unfoldable pub is_value_from : String → List EnvVar → Bool
is_value_from key [] = false
is_value_from key (e ∷ es) = if e.name == key then is_some e.value_from else is_value_from key es

abbrev pub revalue : (String → String) → EnvVar → EnvVar → EnvVar
revalue value existing incoming = record existing { value = value existing.value }

-- `injectDDTraceEnvToContainer`
unfoldable pub inject_env : String → (String → String) → Container → Option Container
unfolding is_value_from add_or_update_env
inject_env key value c =
    if is_value_from key c.env
    then none
    else some (record c {
      env = add_or_update_env c.env (plain_env key (value "")) (some (revalue value));
    })

abbrev cons_both : Option Container → Option (List Container) → Option (List Container)
cons_both none rest = none
cons_both (some c) none = none
cons_both (some c) (some cs) = some (c ∷ cs)

-- The loop of `injectDDTraceConfig`: one container that refuses ends it.
unfoldable pub inject_envs : String → (String → String) → List Container → Option (List Container)
unfolding inject_env
inject_envs key value [] = some []
inject_envs key value (c ∷ cs) = cons_both (inject_env key value c) (inject_envs key value cs)

abbrev pub mounted : Pod → Option (List Container) → Option Pod
mounted pod none = none
mounted pod (some cs) =
    some (
      add_volume_mount (plain_mount ddtrace_volume_name ddtrace_mount_path)
        (with_containers pod cs))

-- `injectDDTraceConfig`
unfoldable pub inject_ddtrace_config : String → (String → String) → Pod → Option Pod
unfolding inject_envs add_volume_mount
inject_ddtrace_config key value pod = mounted pod (inject_envs key value pod.spec.containers)

abbrev pub and_then : Option Pod → (Pod → Option Pod) → Option Pod
and_then none next = none
and_then (some pod) next = next pod

-- The four `injectConfig`.
unfoldable pub inject_config : Library → Pod → Option Pod
unfolding inject_ddtrace_config append_java_agent_if_missing python_path php_package_path
    php_scan_dir append_option_if_missing
inject_config java pod =
    inject_ddtrace_config java_tool_options_key append_java_agent_if_missing pod
inject_config python pod = inject_ddtrace_config "PYTHONPATH" python_path pod
inject_config php pod =
    and_then (inject_ddtrace_config "DD_LOADER_PACKAGE_PATH" php_package_path pod)
      (inject_ddtrace_config "PHP_INI_SCAN_DIR" php_scan_dir)
inject_config nodejs pod =
    inject_ddtrace_config "NODE_OPTIONS" (λ v. append_option_if_missing v nodejs_init_option) pod

unfoldable pub php_loader_flavor : DdTraceRule → String
php_loader_flavor rule =
    if rule.language == "php"
    then (if rule.php_loader_flavor == "linux-gnu" || rule.php_loader_flavor == "linux-musl"
        then rule.php_loader_flavor
        else "linux-gnu")
    else ""

abbrev init_command : Library → String → List String
init_command php flavor =
    "sh"
    ∷ "-c"
    ∷ ("/datadog-init/copy-lib.sh /datadog-lib && cp /datadog-lib/" ⁀ flavor
        ⁀ "/loader/dd_library_loader.ini /datadog-lib/dd_library_loader.ini")
    ∷ []
init_command _ flavor = "sh" ∷ "copy-lib.sh" ∷ ddtrace_mount_path ∷ []

unfoldable pub init_container :
    Library → String → String → String → ResourceRequirements → Container
init_container library flavor image policy resources =
    record (empty_container ddtrace_init_container_name) {
      image = image;
      command = init_command library flavor;
      image_pull_policy = policy;
      volume_mounts = plain_mount ddtrace_volume_name ddtrace_mount_path ∷ [];
      resources = resources;
    }

-- The variable that was there is deleted, and the merged one comes last.
unfoldable pub add_or_merge_dd_tags : List EnvVar → EnvVar → List EnvVar
unfolding append_kv_pairs
add_or_merge_dd_tags [] incoming = incoming ∷ []
add_or_merge_dd_tags (e ∷ es) incoming =
    if e.name == "DD_TAGS"
    then (if is_some e.value_from
        then e ∷ es
        else es ++ record incoming { value = append_kv_pairs e.value incoming.value } ∷ [])
    else e ∷ add_or_merge_dd_tags es incoming

-- What becomes of the variables of one container.
unfoldable pub put_env : EnvVar → List EnvVar → List EnvVar
unfolding add_or_merge_dd_tags add_or_update_env
put_env incoming es =
    if incoming.name == "DD_TAGS"
    then (if incoming.value == "" || is_some incoming.value_from
        then es
        else add_or_merge_dd_tags es incoming)
    else add_or_update_env es incoming (some keep_existing)

abbrev pub put_env_in : EnvVar → Container → Container
put_env_in incoming c = record c { env = put_env incoming c.env }

-- `injectGlobalEnvs`
unfoldable pub inject_global_envs : List EnvVar → Pod → Pod
unfolding put_env
inject_global_envs [] pod = pod
inject_global_envs (e ∷ es) pod =
    inject_global_envs es (with_containers pod (map (put_env_in e) pod.spec.containers))

unfoldable pub inject_global_volume : Pod → Pod
unfolding add_volume
inject_global_volume pod =
    add_volume (record { name = ddtrace_volume_name; source = empty_dir }) pod
