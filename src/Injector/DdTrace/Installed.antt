-- ===== src/Injector/DdTrace/Installed.antt =====
-- When the first injection of the Java agent happens, and what it installs: in all containers or in none
-- (process and injectDDTraceConfig of apis/webhook/injector/ddtrace.go).
use mathlib.Core.Path.{subst}
use mathlib.Core.Option.{some_inj}
use datakit_operator.Common.{
  Option, none, some, Bool, true, false, List, [], ◌∷◌, map, String, ◌≡◌, refl, sym, ap, ◌∙◌, ◌⊎◌,
  inl, inr, Bool-cases, any, All,
}
use datakit_operator.Kubernetes.{
  EnvVar, VolumeMount, Container, Pod, ResourceRequirements, plain_mount,
}
use datakit_operator.Manager.{
  contains_name, with_containers, add_init_container, contains_init_container, add_volume,
  add_volume_mount, add_volume_mount_to, add_or_update_env,
}
use datakit_operator.Manager.Named.{add_named-contains}
use datakit_operator.EnvBuilder.{build_envs, filter_and_set_resource_field_ref}
use datakit_operator.Config.Resource.{pull_policy}
use datakit_operator.Config.Rules.{DdTraceRule}
use datakit_operator.Injector.Setting.{Setting, namespace_of}
use datakit_operator.Injector.Image.{replace_image_version}
use datakit_operator.Injector.Utils.{container_resources}
use datakit_operator.Injector.DdTrace.Options.{append_java_agent_if_missing}
use datakit_operator.Injector.DdTrace.{
  ddtrace_init_container_name, ddtrace_volume_name, ddtrace_mount_path, java_tool_options_key, java,
  library_of, matching_rule, is_value_from, revalue, inject_env, cons_both, inject_envs, mounted,
  inject_ddtrace_config, inject_config, php_loader_flavor, init_container, put_env_in,
  inject_global_envs, inject_global_volume,
}
use datakit_operator.Injector.DdTrace.Process.{completed, Selected, with_resources, select_ddtrace}
use datakit_operator.Injector.DdTrace.Outer.{SameOuter, SameOuter-trans, inject_config-SameOuter}
use datakit_operator.Injector.DdTrace.Agents.{incoming_agent}
use datakit_operator.Injector.DdTrace.Repaired.{HasAgents, HasAgentsPod, java-HasAgents}
use datakit_operator.Injector.DdTrace.Finished.{
  finished, finished-SameOuter, finished-HasAgents, contains-SameOuter, started-contains,
}

-- A container defines the variable by a reference, which is no text to add the agent to.
abbrev pub refuses : Container → Bool
refuses c = is_value_from java_tool_options_key c.env

injected : List Container → Option (List Container)
injected cs = inject_envs java_tool_options_key append_java_agent_if_missing cs

cons_refused : (o : Option Container) → cons_both o none ≡ none
cons_refused none = refl
cons_refused (some c) = refl

abbrev agent_in : Container → Container
agent_in c = record c {
  env = add_or_update_env c.env incoming_agent (some (revalue append_java_agent_if_missing));
}

-- All containers get the variable, or none does.
injected-cases :
    (cs : List Container)
    → ((any refuses cs ≡ true) × (injected cs ≡ none))
      ⊎ ((new : List Container) × (any refuses cs ≡ false) × (injected cs ≡ some new))
unfolding injected inject_envs inject_env
injected-cases [] = inr ([], refl, refl)
injected-cases (c ∷ cs) = elim (Bool-cases (refuses c)) [
  | inl reference ↦ inl (rw reference refl, rw reference refl)
  | inr plain ↦ elim (injected-cases cs) [
    | inl (later, refused) ↦ inl (rw (plain, later) refl, rw refused (cons_refused _))
    | inr (new, none_later, given) ↦
        inr (agent_in c ∷ new, rw (plain, none_later) refl, rw (plain, given) refl)
  ]
]

-- Every application container mounts the volume of the library.
abbrev pub MountLibrary : List Container → Type 0
MountLibrary cs =
    All (λ c. contains_name VolumeMount.name ddtrace_volume_name c.volume_mounts ≡ true) cs

pub record Installed (new : Pod) : Type 0 where
  pub prepared : contains_init_container ddtrace_init_container_name new ≡ true
  pub agents : HasAgents new.spec.containers
  pub mounts : MountLibrary new.spec.containers

-- With a container that refuses the pod is as it was; else the agent is installed.
abbrev pub Decides : Bool → Pod → Pod → Type 0
Decides true pod new = new ≡ pod
Decides false pod new = Installed new

abbrev pub DecidesResult : Pod → Option Selected → Type 0
DecidesResult pod none = Unit
DecidesResult pod (some (selected, new)) =
    (selected ≡ true) × Decides (any refuses pod.spec.containers) pod new

abbrev library_mount : VolumeMount
library_mount = plain_mount ddtrace_volume_name ddtrace_mount_path

library_mounted : (cs : List Container) → MountLibrary (map (add_volume_mount_to library_mount) cs)
unfolding add_volume_mount_to
library_mounted [] = tt
library_mounted (c ∷ cs) =
    (add_named-contains VolumeMount.name library_mount c.volume_mounts, library_mounted cs)

put_env-mounts :
    (e : EnvVar) (cs : List Container) → MountLibrary cs → MountLibrary (map (put_env_in e) cs)
put_env-mounts e [] h = tt
put_env-mounts e (c ∷ cs) (here, h) = (here, put_env-mounts e cs h)

global_envs-mounts :
    (es : List EnvVar) (pod : Pod)
    → MountLibrary pod.spec.containers
    → MountLibrary (inject_global_envs es pod).spec.containers
unfolding inject_global_envs
global_envs-mounts [] pod h = h
global_envs-mounts (e ∷ es) pod h =
    global_envs-mounts es (with_containers pod (map (put_env_in e) pod.spec.containers))
      (put_env-mounts e pod.spec.containers h)

-- The configuration for Java, from the answer of the loop over the containers.
java_config :
    (c : Container) (pod : Pod)
    → inject_config java (add_init_container c pod)
      ≡ mounted (add_init_container c pod) (injected pod.spec.containers)
unfolding inject_config inject_ddtrace_config add_init_container injected
java_config c pod = refl

mounted-mounts :
    (pod : Pod) (cs : List Container) (new : Pod)
    → mounted pod (some cs) ≡ some new
    → MountLibrary new.spec.containers
unfolding add_volume_mount
mounted-mounts pod cs new e =
    subst (λ p. MountLibrary p.spec.containers) (some_inj.0 e) (library_mounted cs)

abbrev mounted_pod : Pod → List Container → Pod
mounted_pod pod cs = add_volume_mount library_mount (with_containers pod cs)

finished-mounts :
    (s : Setting) (rule : DdTraceRule) (mutated : Pod)
    → MountLibrary mutated.spec.containers
    → MountLibrary (finished s rule mutated).spec.containers
unfolding inject_global_volume add_volume
finished-mounts s rule mutated h =
    global_envs-mounts
      (filter_and_set_resource_field_ref (build_envs s.is_config_map_key rule.rule.envs true)
        mutated.spec.containers)
      (inject_global_volume mutated) h

finished-Installed :
    (s : Setting) (rule : DdTraceRule) (c : Container) (pod mutated : Pod) (cs : List Container)
    → c.name ≡ ddtrace_init_container_name
    → inject_config java (add_init_container c pod) ≡ some mutated
    → mounted (add_init_container c pod) (some cs) ≡ some mutated
    → Installed (finished s rule mutated)
finished-Installed s rule c pod mutated cs named e m =
    let started : Pod = add_init_container c pod in
    let same : SameOuter started (some (finished s rule mutated)) =
      SameOuter-trans started mutated (some (finished s rule mutated))
        (subst (SameOuter started) e (inject_config-SameOuter java started))
        (finished-SameOuter s rule mutated) in
    record {
      prepared =
          contains-SameOuter ddtrace_init_container_name started (finished s rule mutated) same
          ∙ subst (λ k. contains_init_container k started ≡ true) named (started-contains c pod);
      agents = finished-HasAgents s rule mutated (subst HasAgentsPod e (java-HasAgents started));
      mounts = finished-mounts s rule mutated (mounted-mounts started cs mutated m);
    }

module _ (s : Setting) (rule : DdTraceRule) (version : String) (pod : Pod) where
  completed-Decides :
      (c : Container)
      → c.name ≡ ddtrace_init_container_name
      → Decides
          (any refuses pod.spec.containers)
          pod
          (completed s rule pod (inject_config java (add_init_container c pod)))
  completed-Decides c named = elim (injected-cases pod.spec.containers) [
    | inl (reference, refused) ↦ rw reference (
        ap (completed s rule pod)
          (java_config c pod ∙ ap (mounted (add_init_container c pod)) refused))
    | inr (cs, plain, given) ↦
        let started : Pod = add_init_container c pod in
        let mutated : Pod = mounted_pod started cs in
        let e : inject_config java started ≡ some mutated =
          java_config c pod ∙ ap (mounted started) given in
        rw plain (
          subst Installed (sym (ap (completed s rule pod) e))
            (finished-Installed s rule c pod mutated cs named e refl))
  ]

  resources-Decides :
      (o : Option ResourceRequirements)
      → DecidesResult pod (with_resources s rule version java pod o)
  unfolding init_container
  resources-Decides none = tt
  resources-Decides (some resources) = (
    refl,
    completed-Decides
        (init_container java (php_loader_flavor rule)
          (replace_image_version rule.rule.image version) (pull_policy rule.rule.image_pull_policy)
          resources)
        refl,
  )

-- For a pod that a Java rule matches and that has no datakit-lib-init container, the injection
-- without a panic selects the rule, and: if some container takes JAVA_TOOL_OPTIONS from a
-- reference, the pod stays as it was; else the pod has the init container afterwards, the first
-- JAVA_TOOL_OPTIONS of every application container names the agent, and every application
-- container has a mount of the library's volume.
pub select_ddtrace-DecidesResult :
    (s : Setting) (rules : List (Option DdTraceRule)) (namespace : String) (pod : Pod)
    (rule : DdTraceRule) (version : String)
    → matching_rule rules (namespace_of namespace pod) pod ≡ some (rule, version)
    → rule.language ≡ "java"
    → contains_init_container ddtrace_init_container_name pod ≡ false
    → DecidesResult pod (select_ddtrace s rules namespace pod)
unfolding select_ddtrace library_of
select_ddtrace-DecidesResult s rules namespace pod rule version matched language fresh =
    rw (matched, fresh, language)
      (resources-Decides s rule version pod (container_resources s.compilers rule.rule.resources))
