-- ===== src/Injector/OTel/Grown.antt =====
-- The growth of a pod by the injection of an OpenTelemetry library.
use datakit_operator.Common.{
  Option, none, some, true, false, ◌≡◌, ◌∙◌, ap, inl, inr, Bool-cases, eq_iff, List, [], ◌∷◌,
  String, ◌==◌, refl, is_some, if-cases, if◌then◌else◌,
}
use datakit_operator.Kubernetes.{
  EnvVar, Container, Pod, ResourceRequirements, plain_env, plain_mount,
}
use datakit_operator.Manager.{contains_name, add_init_container, add_or_update_envs, keep_existing}
use datakit_operator.Manager.Envs.{find_env, find_env-add_or_update_env, find_env-keep}
use datakit_operator.Injector.OTel.Values.{fresh_value}
use datakit_operator.EnvBuilder.{build_envs, filter_and_set_resource_field_ref}
use datakit_operator.Config.Resource.{pull_policy}
use datakit_operator.Config.Rules.{OTelRule, match_all_inject_rules}
use datakit_operator.Webhook.Mutate.{check_annotation_is_true}
use datakit_operator.Injector.Setting.{Setting, namespace_of}
use datakit_operator.Injector.Utils.{container_resources}
use datakit_operator.Injector.Image.{replace_image_version}
use datakit_operator.Injector.Grown.{
  is_tracing_variable, other_variable, env-Kept, Kept, Kept-trans, Grows, GrowsResult, Grows-refl,
  Grows-trans,
}
use datakit_operator.Injector.Grown.Steps.{
  add_init_container-Grows, add_volume-Grows, add_volume_mount_to-Kept, map-Grows,
}
use datakit_operator.Injector.OTel.{
  Library, java, python, nodejs, options_key, library_of, otel_volume_name, mount_path, Matched,
  select_otel_rule,
}
use datakit_operator.Injector.OTel.Validation.{refusal}
use datakit_operator.Injector.OTel.Process.{
  init_container, run_as_non_root_without_non_root_user, inject_option, update_first,
  inject_library_to, inject_library, inject_volume, add_envs, inject_otel_envs, inject_all, checked,
  with_resources, with_library, inject_selected, inject_otel,
}

find_env-update_first :
    (k : String) (library : Library) (es : List EnvVar)
    → (options_key library == k) ≡ false
    → find_env k (update_first library es) ≡ find_env k es
unfolding find_env update_first
find_env-update_first k library [] other = refl
find_env-update_first k library (x ∷ es) other = elim (Bool-cases (x.name == options_key library)) [
  | inl here ↦
      let differs : (x.name == k) ≡ false =
        rw ((eq_iff x.name (options_key library)).0 here) other in
      rw (here, differs) refl
  | inr later ↦
      rw later
        (ap (λ o. if x.name == k then some x else o) (find_env-update_first k library es other))
]

find_env-inject_option :
    (k : String) (library : Library) (es : List EnvVar)
    → (options_key library == k) ≡ false
    → find_env k (inject_option library es) ≡ find_env k es
unfolding inject_option
find_env-inject_option k library es other =
    if-cases (λ l. find_env k l ≡ find_env k es)
      (contains_name EnvVar.name (options_key library) es) _ _
      (find_env-update_first k library es other)
      (find_env-add_or_update_env keep_existing k es
          (plain_env (options_key library) (fresh_value library)) (λ a b h. h)
        ∙ rw other refl)

options_variable : (library : Library) → is_tracing_variable (options_key library) ≡ true
options_variable java = refl
options_variable python = refl
options_variable nodejs = refl

add_envs-Kept : (envs : List EnvVar) (c : Container) → Kept c (add_envs envs c)
add_envs-Kept envs c =
    env-Kept c (add_or_update_envs c.env envs (some keep_existing))
      λ k e other found. find_env-keep k envs c.env e found

inject_library_to-Kept : (library : Library) (c : Container) → Kept c (inject_library_to library c)
unfolding inject_library_to
inject_library_to-Kept library c =
    Kept-trans c (record c { env = inject_option library c.env }) _
      (env-Kept c (inject_option library c.env) λ k e other found.
        find_env-inject_option k library c.env
          (other_variable (options_key library) k (options_variable library) other)
        ∙ found)
      (add_volume_mount_to-Kept (plain_mount otel_volume_name (mount_path library))
        (record c { env = inject_option library c.env }))

inject_library-Grows : (library : Library) (pod : Pod) → Grows [] pod (inject_library library pod)
unfolding inject_library
inject_library-Grows library pod =
    map-Grows (inject_library_to library) pod (inject_library_to-Kept library)

inject_volume-Grows : (pod : Pod) → Grows [] pod (inject_volume pod)
unfolding inject_volume
inject_volume-Grows pod = add_volume-Grows _ pod

otel_envs-Grows : (envs : List EnvVar) (pod : Pod) → Grows [] pod (inject_otel_envs envs pod)
unfolding inject_otel_envs
otel_envs-Grows envs pod = map-Grows (add_envs envs) pod (add_envs-Kept envs)

inject_all-Grows :
    (s : Setting) (rule : OTelRule) (library : Library) (init : Container) (pod : Pod)
    → Grows [] pod (inject_all s rule library init pod)
unfolding inject_all
inject_all-Grows s rule library init pod =
    let new : Pod = inject_library library (inject_volume (add_init_container init pod)) in
    let envs : List EnvVar =
      filter_and_set_resource_field_ref (build_envs s.is_config_map_key rule.rule.envs true)
        new.spec.containers in
    Grows-trans (add_init_container-Grows init pod) (
      Grows-trans (inject_volume-Grows _)
        (Grows-trans (inject_library-Grows library _) (otel_envs-Grows envs new)))

checked-Grows :
    (s : Setting) (rule : OTelRule) (library : Library) (init : Container) (pod : Pod)
    → Grows [] pod (checked s rule library init pod)
checked-Grows s rule library init pod =
    if-cases (Grows [] pod)
      (run_as_non_root_without_non_root_user pod.spec.security_context init.security_context) pod _
      (Grows-refl [] pod)
      (if-cases (Grows [] pod) (is_some (refusal s library rule.rule.image init pod)) pod _
        (Grows-refl [] pod) (inject_all-Grows s rule library init pod))

module _ (s : Setting) (rule : OTelRule) (version : String) (pod : Pod) where
  with_resources-Grows :
      (library : Library) (o : Option ResourceRequirements)
      → GrowsResult [] pod (with_resources s rule version library pod o)
  with_resources-Grows library none = tt
  with_resources-Grows library (some resources) =
      checked-Grows s rule library
        (init_container library (replace_image_version rule.rule.image version)
          (pull_policy rule.rule.image_pull_policy) resources pod.spec.containers)
        pod

  with_library-Grows : (o : Option Library) → GrowsResult [] pod (with_library s rule version pod o)
  with_library-Grows none = Grows-refl [] pod
  with_library-Grows (some library) =
      with_resources-Grows library (container_resources s.compilers rule.rule.resources)

inject_selected-Grows :
    (s : Setting) (pod : Pod) (m : Matched) → GrowsResult [] pod (inject_selected s pod m)
inject_selected-Grows s pod none = Grows-refl [] pod
inject_selected-Grows s pod (some (rule, version)) =
    with_library-Grows s rule version pod (library_of rule.language)

pub inject_otel-GrowsResult :
    (s : Setting) (rules : List (Option OTelRule)) (namespace : String) (pod : Pod)
    → GrowsResult [] pod (inject_otel s rules namespace pod)
unfolding inject_otel
inject_otel-GrowsResult s rules namespace pod =
    if-cases (GrowsResult [] pod)
      (check_annotation_is_true pod.annotations "admission.datakit/otel.enabled") _ (some pod)
      (inject_selected-Grows s pod (
        select_otel_rule
          (match_all_inject_rules OTelRule.rule rules (namespace_of namespace pod) pod.labels)
          pod.annotations))
      (Grows-refl [] pod)
