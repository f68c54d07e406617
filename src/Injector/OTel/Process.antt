-- ===== src/Injector/OTel/Process.antt =====
-- The injection of an OpenTelemetry library: `process` of apis/webhook/injector/otel.go.
use datakit_operator.Common.{
  ℕ, Option, none, some, Bool, true, false, ◌&&◌, List, [], ◌∷◌, map, String, ◌==◌, if◌then◌else◌,
  is_some, eqb,
}
use datakit_operator.Kubernetes.{
  EnvVar, Container, Pod, SecurityContext, ResourceRequirements, empty_dir, empty_container,
  plain_env, plain_mount,
}
use datakit_operator.Manager.{
  contains_name, with_containers, add_init_container, add_volume, add_volume_mount_to,
  add_or_update_env, add_or_update_envs, keep_existing,
}
use datakit_operator.EnvBuilder.{build_envs, filter_and_set_resource_field_ref}
use datakit_operator.Config.Resource.{pull_policy}
use datakit_operator.Config.Rules.{OTelRule, match_all_inject_rules}
use datakit_operator.Webhook.Mutate.{check_annotation_is_true}
use datakit_operator.Injector.Setting.{Setting, namespace_of, changed}
use datakit_operator.Injector.Utils.{container_resources}
use datakit_operator.Injector.Image.{replace_image_version}
use datakit_operator.Injector.DdTrace.{otel_init_container_name}
use datakit_operator.Injector.OTel.{
  Library, library_of, otel_volume_name, mount_path, init_command, options_key, Matched,
  select_otel_rule,
}
use datakit_operator.Injector.OTel.Values.{fresh_value, new_value}
use datakit_operator.Injector.OTel.Validation.{refusal}
use mathlib.Core.Option

abbrev first_security_context : List Container → Option SecurityContext
first_security_context [] = none
first_security_context (c ∷ cs) = c.security_context

-- `initContainer`: it runs with the security context of the first application container.
unfoldable pub init_container :
    Library → String → String → ResourceRequirements → List Container → Container
init_container library image policy resources containers =
    record (empty_container otel_init_container_name) {
      image = image;
      command = init_command library;
      image_pull_policy = policy;
      volume_mounts = plain_mount otel_volume_name (mount_path library) ∷ [];
      security_context = first_security_context containers;
      resources = resources;
    }

abbrev non_root_of : Option SecurityContext → Option Bool
non_root_of none = none
non_root_of (some c) = c.run_as_non_root

abbrev user_of : Option SecurityContext → Option ℕ
user_of none = none
user_of (some c) = c.run_as_user

-- No user, or the user root.
abbrev is_root : Option ℕ → Bool
is_root none = true
is_root (some u) = eqb u 0

-- The setting of the container over that of the pod.
abbrev over {ℓ} : {A : Type ℓ} → Option A → Option A → Option A
over pod none = pod
over pod (some a) = some a

abbrev is_true : Option Bool → Bool
is_true none = false
is_true (some b) = b

-- `runAsNonRootWithoutNonRootUser`
unfoldable pub run_as_non_root_without_non_root_user :
    Option SecurityContext → Option SecurityContext → Bool
run_as_non_root_without_non_root_user pod container =
    is_true (over (non_root_of pod) (non_root_of container))
    && is_root (over (user_of pod) (user_of container))

unfoldable pub update_first : Library → List EnvVar → List EnvVar
unfolding new_value
update_first library [] = []
update_first library (e ∷ es) =
    if e.name == options_key library
    then record e { value = new_value library e.value } ∷ es
    else e ∷ update_first library es

-- The variable of a library in the variables of one container.
unfoldable pub inject_option : Library → List EnvVar → List EnvVar
unfolding contains_name add_or_update_env update_first new_value
inject_option library es =
    if contains_name EnvVar.name (options_key library) es
    then update_first library es
    else add_or_update_env es (plain_env (options_key library) (fresh_value library))
        (some keep_existing)

unfoldable pub inject_library_to : Library → Container → Container
unfolding inject_option add_volume_mount_to
inject_library_to library c =
    add_volume_mount_to (plain_mount otel_volume_name (mount_path library))
      (record c { env = inject_option library c.env })

-- The three `inject…Config`.
unfoldable pub inject_library : Library → Pod → Pod
unfolding inject_library_to
inject_library library pod =
    with_containers pod (map (inject_library_to library) pod.spec.containers)

unfoldable pub inject_volume : Pod → Pod
unfolding add_volume
inject_volume pod = add_volume (record { name = otel_volume_name; source = empty_dir }) pod

abbrev pub add_envs : List EnvVar → Container → Container
add_envs envs c = record c { env = add_or_update_envs c.env envs (some keep_existing) }

unfoldable pub inject_otel_envs : List EnvVar → Pod → Pod
unfolding add_or_update_envs
inject_otel_envs envs pod = with_containers pod (map (add_envs envs) pod.spec.containers)

-- The steps after the checks.
unfoldable pub inject_all : Setting → OTelRule → Library → Container → Pod → Pod
unfolding add_init_container inject_volume inject_library inject_otel_envs build_envs
    filter_and_set_resource_field_ref
inject_all s rule library init pod =
    let new = inject_library library (inject_volume (add_init_container init pod)) in
    inject_otel_envs
      (filter_and_set_resource_field_ref (build_envs s.is_config_map_key rule.rule.envs true)
        new.spec.containers)
      new

abbrev pub checked : Setting → OTelRule → Library → Container → Pod → Pod
checked s rule library init pod =
    if run_as_non_root_without_non_root_user pod.spec.security_context init.security_context
    then pod
    else if is_some (refusal s library rule.rule.image init pod)
    then pod
    else inject_all s rule library init pod

abbrev pub with_resources :
    Setting → OTelRule → String → Library → Pod → Option ResourceRequirements → Option Pod
with_resources s rule version library pod none = none
with_resources s rule version library pod (some resources) = some (
    checked s rule library
      (init_container library (replace_image_version rule.rule.image version)
        (pull_policy rule.rule.image_pull_policy) resources pod.spec.containers)
      pod)

abbrev pub with_library : Setting → OTelRule → String → Pod → Option Library → Option Pod
with_library s rule version pod none = some pod
with_library s rule version pod (some library) =
    with_resources s rule version library pod (container_resources s.compilers rule.rule.resources)

abbrev pub inject_selected : Setting → Pod → Matched → Option Pod
inject_selected s pod none = some pod
inject_selected s pod (some (rule, version)) =
    with_library s rule version pod (library_of rule.language)

-- `process`; `none` where `setContainerResources` panics
unfoldable pub inject_otel : Setting → List (Option OTelRule) → String → Pod → Option Pod
unfolding check_annotation_is_true match_all_inject_rules select_otel_rule library_of
    container_resources replace_image_version pull_policy init_container
    run_as_non_root_without_non_root_user refusal inject_all
inject_otel s rules namespace pod =
    if check_annotation_is_true pod.annotations "admission.datakit/otel.enabled"
    then inject_selected s pod (
        select_otel_rule
          (match_all_inject_rules OTelRule.rule rules (namespace_of namespace pod) pod.labels)
          pod.annotations)
    else some pod

-- `InjectOTelToPod`: whether the pod differs, and the pod
unfoldable pub inject_otel_to_pod :
    Setting → List (Option OTelRule) → String → Pod → Option (Bool × Pod)
unfolding inject_otel changed
inject_otel_to_pod s rules namespace pod =
    Option.map (λ new. (changed pod new, new)) (inject_otel s rules namespace pod)
