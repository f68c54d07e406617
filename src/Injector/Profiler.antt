-- ===== src/Injector/Profiler.antt =====
-- apis/webhook/injector/profiler.go: a container with the profiler, which shares the processes of the pod.
pub mod Grown
pub mod Again
pub mod Kept
use mathlib.Core.Option
use datakit_operator.Common.{
  Option, none, some, Bool, true, false, not, ◌&&◌, ◌||◌, List, [], ◌∷◌, ◌++◌, map, String, ◌==◌,
  if◌then◌else◌, is_some, lookup, ◌⊎◌, inl, inr,
}
use datakit_operator.Common.Text.{◌⁀◌}
use datakit_operator.Kubernetes.{
  EnvVar, Volume, VolumeMount, VolumeSource, empty_dir, host_path, Container, PodSpec, Pod,
  SecurityContext, ResourceRequirements, empty_container, plain_mount,
}
use datakit_operator.Manager.{
  add_container, contains_container, add_volume, add_volume_mount, find_volume_mount_path,
  add_or_update_envs, replace_existing,
}
use datakit_operator.EnvBuilder.{build_envs, filter_and_set_resource_field_ref}
use datakit_operator.Config.Selector.{Compilers}
use datakit_operator.Config.Resource.{pull_policy}
use datakit_operator.Config.Rules.{ProfilerRule, match_inject_rule}
use datakit_operator.Webhook.Mutate.{check_annotation_is_true}
use datakit_operator.Injector.Setting.{Setting, namespace_of, changed}
use datakit_operator.Injector.Utils.{container_resources}
use datakit_operator.Injector.Image.{replace_image_version}

abbrev pub profiler_container_name : String
profiler_container_name = "datakit-profiler"

abbrev pub Languages : Type 0
Languages = List String

abbrev pub supported_languages : Languages
supported_languages = "java" ∷ "python" ∷ "golang" ∷ []

-- A rule, a language and the version that an annotation asks for.
abbrev pub Matched : Type 0
Matched = Option (ProfilerRule × String × String)

abbrev pub if_version : ProfilerRule → String → Option String → Matched → Matched
if_version rule l none rest = rest
if_version rule l (some version) rest = some (rule, l, version)

-- The loop over the languages: the first whose version annotation is there.
unfoldable pub annotated : ProfilerRule → List (String × String) → Languages → Matched
annotated rule annotations [] = none
annotated rule annotations (l ∷ ls) =
    if_version rule l (lookup ("admission.datakit/" ⁀ l ⁀ "-profiler.version") annotations)
      (annotated rule annotations ls)

abbrev pub is_supported : String → Bool
is_supported l = l == "java" || l == "python" || l == "golang"

unfoldable pub matched_language : List (String × String) → Option ProfilerRule → Matched
unfolding annotated
matched_language annotations none = none
matched_language annotations (some rule) =
    if rule.check_annotation
    then annotated rule annotations supported_languages
    else if is_supported rule.language
    then some (rule, rule.language, "")
    else none

unfoldable pub matching_rule : List (Option ProfilerRule) → String → Pod → Matched
unfolding check_annotation_is_true contains_container match_inject_rule matched_language
matching_rule rules namespace pod =
    if not (check_annotation_is_true pod.annotations "admission.datakit/profiler.enabled")
    then none
    else if contains_container profiler_container_name pod
    then none
    else matched_language pod.annotations
        (match_inject_rule ProfilerRule.rule rules namespace pod.labels)

abbrev image_key : String → Option String
image_key l =
    if l == "java"
    then some "java_profiler_image"
    else if l == "python"
    then some "python_profiler_image"
    else if l == "golang"
    then some "golang_profiler_image"
    else none

abbrev image_or : String → Option String → String
image_or default none = default
image_or default (some image) = if image == "" then default else image

abbrev image_from : ProfilerRule → Option String → String
image_from rule none = ""
image_from rule (some key) = image_or rule.rule.image (lookup key rule.images)

unfoldable pub image_from_rule : ProfilerRule → String → String
image_from_rule rule l = image_from rule (image_key l)

unfoldable pub reset_spec : Pod → Pod
reset_spec pod = record pod {
  spec = record (pod.spec) { share_process_namespace = some true; restart_policy = "Always" };
}

unfoldable pub profiler_container : String → String → ResourceRequirements → List EnvVar → Container
profiler_container image policy resources envs = record (empty_container profiler_container_name) {
  image = image;
  command = "bash" ∷ "cmd.sh" ∷ [];
  image_pull_policy = policy;
  working_dir = "/app/datakit-profiler";
  security_context = some (record {
    capabilities = "SYS_PTRACE" ∷ "SYS_ADMIN" ∷ [];
    run_as_non_root = none;
    run_as_user = none;
  });
  resources = resources;
  env = envs;
}

unfoldable pub inject_volume : Pod → Pod
unfolding add_volume
inject_volume pod =
    add_volume (record { name = "timezone"; source = host_path "/etc/localtime" "FileOrCreate" })
      (add_volume (record { name = "tmp"; source = empty_dir })
        (add_volume (record { name = "datakit-profiler-volume"; source = empty_dir }) pod))

-- A mount is added to every container unless some container mounts its path already.
mount_unless_there : String → String → Pod → Pod
unfolding find_volume_mount_path add_volume_mount
mount_unless_there name path pod =
    if is_some (find_volume_mount_path path pod)
    then pod
    else add_volume_mount (plain_mount name path) pod

unfoldable pub inject_volume_mount : Pod → Pod
unfolding mount_unless_there add_volume_mount
inject_volume_mount pod = mount_unless_there "timezone" "/etc/localtime" (
    mount_unless_there "tmp" "/tmp"
      (add_volume_mount (plain_mount "datakit-profiler-volume" "/app/datakit-profiler") pod))

unfoldable pub profiler_envs : Setting → ProfilerRule → Pod → List EnvVar
unfolding build_envs filter_and_set_resource_field_ref add_or_update_envs
profiler_envs s rule pod =
    add_or_update_envs []
      (filter_and_set_resource_field_ref (build_envs s.is_config_map_key rule.rule.envs true)
        pod.spec.containers)
      (some replace_existing)

-- The last three steps of `process`; `none` where `setContainerResources` panics.
abbrev pub finish : Setting → ProfilerRule → String → Pod → Option ResourceRequirements → Option Pod
finish s rule image pod none = none
finish s rule image pod (some resources) = some (
    inject_volume_mount (
      inject_volume (
        add_container
          (profiler_container image (pull_policy rule.rule.image_pull_policy) resources
            (profiler_envs s rule pod))
          pod)))

abbrev pub inject_matched : Setting → Pod → Matched → Option Pod
inject_matched s pod none = some pod
inject_matched s pod (some (rule, l, version)) =
    if image_from_rule rule l == ""
    then some pod
    else finish s rule (replace_image_version (image_from_rule rule l) version) (reset_spec pod)
        (container_resources s.compilers rule.rule.resources)

-- `process`
unfoldable pub inject_profiler : Setting → List (Option ProfilerRule) → String → Pod → Option Pod
unfolding matching_rule image_from_rule reset_spec profiler_container inject_volume
    inject_volume_mount profiler_envs container_resources replace_image_version add_container
    pull_policy
inject_profiler s rules namespace pod =
    inject_matched s pod (matching_rule rules (namespace_of namespace pod) pod)

-- `InjectProfilerToPod`: the pod after injection, and whether it differs (pkg/podcompare)
unfoldable pub inject_profiler_to_pod :
    Setting → List (Option ProfilerRule) → String → Pod → Option (Bool × Pod)
unfolding inject_profiler changed
inject_profiler_to_pod s rules namespace pod =
    Option.map (λ new. (changed pod new, new)) (inject_profiler s rules namespace pod)
