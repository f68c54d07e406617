-- ===== src/Injector/DdTrace/Grown.antt =====
-- The growth of a pod by the injection of the Datadog library.
use datakit_operator.Common.{
  Option, none, some, List, [], ◌∷◌, String, ◌≡◌, ◌==◌, refl, true, ◌∙◌, if-cases,
}
use datakit_operator.Kubernetes.{EnvVar, Container, Pod, ResourceRequirements}
use datakit_operator.Manager.{add_init_container, contains_init_container}
use datakit_operator.Config.Resource.{pull_policy}
use datakit_operator.Config.Rules.{DdTraceRule}
use datakit_operator.Injector.Setting.{Setting, namespace_of}
use datakit_operator.Injector.Utils.{container_resources}
use datakit_operator.Injector.Image.{replace_image_version}
use datakit_operator.Injector.Grown.{
  is_tracing_variable, other_variable, env-Kept, Kept, Kept-refl, Joined, Joined-nil, Joined-cons,
  Grows, GrowsResult, Grows-refl, Grows-trans,
}
use datakit_operator.Injector.Grown.Steps.{
  add_init_container-Grows, add_volume-Grows, add_volume_mount-Grows, with_containers-Grows,
  map-Grows,
}
use datakit_operator.Injector.DdTrace.Options.{
  append_java_agent_if_missing, append_option_if_missing, python_path, php_scan_dir,
  php_package_path, nodejs_init_option,
}
use datakit_operator.Injector.DdTrace.Variables.{find_env-revalue, find_env-put_env}
use datakit_operator.Injector.DdTrace.{
  put_env, ddtrace_init_container_name, java_tool_options_key, Library, java, python, php, nodejs,
  library_of, Matched, matching_rule, is_value_from, inject_env, cons_both, inject_envs, mounted,
  inject_ddtrace_config, and_then, inject_config, php_loader_flavor, init_container, put_env_in,
  inject_global_envs, inject_global_volume,
}
use datakit_operator.Injector.DdTrace.Process.{
  or_same, has_library_mount, repair_container, repair_java_agent_env, completed, with_resources,
  with_library, inject_selected, Selected, select_ddtrace,
}
use datakit_operator.Injector.DdTrace.Repaired.{repair_cases}

abbrev KeptResult : Container → Option Container → Type 0
KeptResult c none = Unit
KeptResult c (some new) = Kept c new

inject_env-Kept :
    (key : String) (value : String → String) (c : Container)
    → is_tracing_variable key ≡ true
    → KeptResult c (inject_env key value c)
unfolding inject_env
inject_env-Kept key value c h = if-cases (KeptResult c) (is_value_from key c.env) none _ tt (
    env-Kept c _ (λ k e other found.
      find_env-revalue k key value c.env (other_variable key k h other) ∙ found))

abbrev JoinedResult : List Container → Option (List Container) → Type 0
JoinedResult cs none = Unit
JoinedResult cs (some new) = Joined [] cs new

cons_both-Joined :
    (c : Container) (cs : List Container) (o : Option Container) (os : Option (List Container))
    → KeptResult c o
    → JoinedResult cs os
    → JoinedResult (c ∷ cs) (cons_both o os)
cons_both-Joined c cs none os h k = tt
cons_both-Joined c cs (some d) none h k = tt
cons_both-Joined c cs (some d) (some ds) h k = Joined-cons c d cs ds h k

inject_envs-Joined :
    (key : String) (value : String → String) (cs : List Container)
    → is_tracing_variable key ≡ true
    → JoinedResult cs (inject_envs key value cs)
unfolding inject_envs
inject_envs-Joined key value [] h = Joined-nil
inject_envs-Joined key value (c ∷ cs) h =
    cons_both-Joined c cs (inject_env key value c) (inject_envs key value cs)
      (inject_env-Kept key value c h) (inject_envs-Joined key value cs h)

mounted-Grows :
    (pod : Pod) (o : Option (List Container))
    → JoinedResult pod.spec.containers o
    → GrowsResult [] pod (mounted pod o)
mounted-Grows pod none h = tt
mounted-Grows pod (some cs) h =
    Grows-trans (with_containers-Grows pod cs h) (add_volume_mount-Grows _ _)

ddtrace_config-Grows :
    (key : String) (value : String → String) (pod : Pod)
    → is_tracing_variable key ≡ true
    → GrowsResult [] pod (inject_ddtrace_config key value pod)
unfolding inject_ddtrace_config
ddtrace_config-Grows key value pod h =
    mounted-Grows pod (inject_envs key value pod.spec.containers)
      (inject_envs-Joined key value pod.spec.containers h)

GrowsResult-after :
    (pod new : Pod) (o : Option Pod)
    → Grows [] pod new
    → GrowsResult [] new o
    → GrowsResult [] pod o
GrowsResult-after pod new none g h = tt
GrowsResult-after pod new (some last) g h = Grows-trans g h

and_then-Grows :
    (pod : Pod) (o : Option Pod) (next : Pod → Option Pod)
    → GrowsResult [] pod o
    → ((p : Pod) → GrowsResult [] p (next p))
    → GrowsResult [] pod (and_then o next)
and_then-Grows pod none next h k = tt
and_then-Grows pod (some new) next h k = GrowsResult-after pod new (next new) h (k new)

inject_config-Grows :
    (library : Library) (pod : Pod) → GrowsResult [] pod (inject_config library pod)
unfolding inject_config
inject_config-Grows java pod =
    ddtrace_config-Grows java_tool_options_key append_java_agent_if_missing pod refl
inject_config-Grows python pod = ddtrace_config-Grows "PYTHONPATH" python_path pod refl
inject_config-Grows nodejs pod =
    ddtrace_config-Grows "NODE_OPTIONS" (λ v. append_option_if_missing v nodejs_init_option) pod
      refl
inject_config-Grows php pod =
    and_then-Grows pod (inject_ddtrace_config "DD_LOADER_PACKAGE_PATH" php_package_path pod)
      (inject_ddtrace_config "PHP_INI_SCAN_DIR" php_scan_dir)
      (ddtrace_config-Grows "DD_LOADER_PACKAGE_PATH" php_package_path pod refl)
      (λ p. ddtrace_config-Grows "PHP_INI_SCAN_DIR" php_scan_dir p refl)

put_env_in-Kept : (incoming : EnvVar) (c : Container) → Kept c (put_env_in incoming c)
put_env_in-Kept incoming c = env-Kept c (put_env incoming c.env) λ k e other found.
    find_env-put_env k incoming c.env e (other_variable "DD_TAGS" k refl other) found

global_envs-Grows : (es : List EnvVar) (pod : Pod) → Grows [] pod (inject_global_envs es pod)
unfolding inject_global_envs
global_envs-Grows [] pod = Grows-refl [] pod
global_envs-Grows (e ∷ es) pod =
    Grows-trans (map-Grows (put_env_in e) pod (put_env_in-Kept e)) (global_envs-Grows es _)

global_volume-Grows : (pod : Pod) → Grows [] pod (inject_global_volume pod)
unfolding inject_global_volume
global_volume-Grows pod = add_volume-Grows _ pod

or_same-Kept : (c : Container) (o : Option Container) → KeptResult c o → Kept c (or_same c o)
or_same-Kept c none h = Kept-refl c
or_same-Kept c (some new) h = h

repair_container-Kept : (c : Container) → Kept c (repair_container c)
unfolding repair_container
repair_container-Kept c =
    if-cases (Kept c) (has_library_mount c) _ c
      (or_same-Kept c _ (inject_env-Kept java_tool_options_key append_java_agent_if_missing c refl))
      (Kept-refl c)

repair-Grows : (pod : Pod) → Grows [] pod (repair_java_agent_env pod)
repair-Grows pod =
    repair_cases (Grows [] pod) pod (Grows-refl [] pod)
      (map-Grows repair_container pod repair_container-Kept)

-- The pod of a selection has grown from the pod before it.
abbrev pub SelectedGrows : Pod → Option Selected → Type 0
SelectedGrows pod none = Unit
SelectedGrows pod (some (selected, new)) = Grows [] pod new

completed-Grows :
    (s : Setting) (rule : DdTraceRule) (pod : Pod) (o : Option Pod)
    → GrowsResult [] pod o
    → Grows [] pod (completed s rule pod o)
completed-Grows s rule pod none h = Grows-refl [] pod
completed-Grows s rule pod (some new) h =
    Grows-trans h (Grows-trans (global_volume-Grows new) (global_envs-Grows _ _))

module _ (s : Setting) (rule : DdTraceRule) (version : String) (pod : Pod) where
  with_resources-Grows :
      (library : Library) (o : Option ResourceRequirements)
      → SelectedGrows pod (with_resources s rule version library pod o)
  with_resources-Grows library none = tt
  with_resources-Grows library (some resources) =
      let c : Container =
        init_container library (php_loader_flavor rule)
          (replace_image_version rule.rule.image version) (pull_policy rule.rule.image_pull_policy)
          resources in
      completed-Grows s rule pod (inject_config library (add_init_container c pod)) (
        GrowsResult-after pod (add_init_container c pod) _ (add_init_container-Grows c pod)
          (inject_config-Grows library (add_init_container c pod)))

  with_library-Grows : (o : Option Library) → SelectedGrows pod (with_library s rule version pod o)
  with_library-Grows none = Grows-refl [] pod
  with_library-Grows (some library) =
      with_resources-Grows library (container_resources s.compilers rule.rule.resources)

inject_selected-Grows :
    (s : Setting) (pod : Pod) (m : Matched) → SelectedGrows pod (inject_selected s pod m)
inject_selected-Grows s pod none = Grows-refl [] pod
inject_selected-Grows s pod (some (rule, version)) =
    if-cases (SelectedGrows pod) (contains_init_container ddtrace_init_container_name pod) _ _
      (if-cases (Grows [] pod) (rule.language == "java") _ pod (repair-Grows pod)
        (Grows-refl [] pod))
      (with_library-Grows s rule version pod (library_of rule.language))

pub select_ddtrace-Grows :
    (s : Setting) (rules : List (Option DdTraceRule)) (namespace : String) (pod : Pod)
    → SelectedGrows pod (select_ddtrace s rules namespace pod)
unfolding select_ddtrace
select_ddtrace-Grows s rules namespace pod =
    inject_selected-Grows s pod (matching_rule rules (namespace_of namespace pod) pod)
