-- ===== src/Injector/DdTrace/Repaired.antt =====
-- The Java agent in all application containers of a pod, and the repair of a pod that lacks it in some
-- (repairJavaAgentEnv of apis/webhook/injector/ddtrace.go).
use datakit_operator.Common.{
  Option, none, some, not, List, [], ◌∷◌, map, ◌≡◌, refl, sym, ap, ◌∙◌, ◌⊎◌, inl, inr, Bool-cases,
  Option-cases, if-cases, any, All,
}
use datakit_operator.Kubernetes.{EnvVar, VolumeMount, Container, Pod}
use datakit_operator.Manager.{
  with_containers, add_volume_mount, add_volume_mount_to, is_empty_dir_volume,
}
use datakit_operator.Injector.Setting.{changed}
use datakit_operator.Injector.DdTrace.Options.{append_java_agent_if_missing}
use datakit_operator.Injector.DdTrace.{
  ddtrace_volume_name, java_tool_options_key, cons_both, inject_env, inject_envs, mounted,
  inject_ddtrace_config, put_env_in, inject_global_envs, java, inject_config,
}
use datakit_operator.Injector.DdTrace.Process.{
  has_library_mount, repair_container, init_has_mount, repair_java_agent_env,
}
use datakit_operator.Injector.DdTrace.Agents.{
  HasAgent, HasAgent-same, inject_env-HasAgent, put_env-HasAgent,
}

abbrev pub HasAgents : List Container → Type 0
HasAgents cs = All (λ c. HasAgent c.env) cs

abbrev HasAgentsResult : Option (List Container) → Type 0
HasAgentsResult none = Unit
HasAgentsResult (some cs) = HasAgents cs

cons_both-HasAgents :
    (o : Option Container) (os : Option (List Container))
    → ((c : Container) → o ≡ some c → HasAgent c.env)
    → HasAgentsResult os
    → HasAgentsResult (cons_both o os)
cons_both-HasAgents none os h k = tt
cons_both-HasAgents (some c) none h k = tt
cons_both-HasAgents (some c) (some cs) h k = (h c refl, k)

inject_envs-HasAgents :
    (cs : List Container)
    → HasAgentsResult (inject_envs java_tool_options_key append_java_agent_if_missing cs)
unfolding inject_envs
inject_envs-HasAgents [] = tt
inject_envs-HasAgents (c ∷ cs) =
    cons_both-HasAgents (inject_env java_tool_options_key append_java_agent_if_missing c)
      (inject_envs java_tool_options_key append_java_agent_if_missing cs) (inject_env-HasAgent c)
      (inject_envs-HasAgents cs)

mounts-HasAgents :
    (m : VolumeMount) (cs : List Container)
    → HasAgents cs
    → HasAgents (map (add_volume_mount_to m) cs)
unfolding add_volume_mount_to
mounts-HasAgents m [] h = tt
mounts-HasAgents m (c ∷ cs) (here, h) = (here, mounts-HasAgents m cs h)

abbrev pub HasAgentsPod : Option Pod → Type 0
HasAgentsPod none = Unit
HasAgentsPod (some pod) = HasAgents pod.spec.containers

mounted-HasAgents :
    (pod : Pod) (o : Option (List Container)) → HasAgentsResult o → HasAgentsPod (mounted pod o)
unfolding add_volume_mount
mounted-HasAgents pod none h = tt
mounted-HasAgents pod (some cs) h = mounts-HasAgents _ cs h

-- After the configuration for Java every container has the agent.
pub java-HasAgents : (pod : Pod) → HasAgentsPod (inject_config java pod)
unfolding inject_config inject_ddtrace_config
java-HasAgents pod =
    mounted-HasAgents pod
      (inject_envs java_tool_options_key append_java_agent_if_missing pod.spec.containers)
      (inject_envs-HasAgents pod.spec.containers)

put_env-HasAgents :
    (e : EnvVar) (cs : List Container) → HasAgents cs → HasAgents (map (put_env_in e) cs)
put_env-HasAgents e [] h = tt
put_env-HasAgents e (c ∷ cs) (here, h) = (put_env-HasAgent e c.env here, put_env-HasAgents e cs h)

pub global_envs-HasAgents :
    (es : List EnvVar) (pod : Pod)
    → HasAgents pod.spec.containers
    → HasAgents (inject_global_envs es pod).spec.containers
unfolding inject_global_envs
global_envs-HasAgents [] pod h = h
global_envs-HasAgents (e ∷ es) pod h =
    global_envs-HasAgents es (with_containers pod (map (put_env_in e) pod.spec.containers))
      (put_env-HasAgents e pod.spec.containers h)

agent-repaired : (c : Container) → HasAgent c.env → repair_container c ≡ c
unfolding repair_container
agent-repaired c h = if-cases (λ r. r ≡ c) (has_library_mount c) _ c (HasAgent-same c h) refl

agents-repaired : (cs : List Container) → HasAgents cs → map repair_container cs ≡ cs
agents-repaired [] h = refl
agents-repaired (c ∷ cs) (here, h) =
    ap (λ x. x ∷ map repair_container cs) (agent-repaired c here)
    ∙ ap (◌∷◌ c) (agents-repaired cs h)

-- A container that was repaired is left alone: the repair did nothing to it, or it has the agent.
repair_container-cases :
    (c : Container) → (repair_container c ≡ c) ⊎ HasAgent (repair_container c).env
unfolding repair_container
repair_container-cases c = elim (Bool-cases (has_library_mount c)) [
  | inr no_mount ↦ inl (rw no_mount refl)
  | inl mount ↦
      elim (Option-cases (inject_env java_tool_options_key append_java_agent_if_missing c)) [
        | inl refused ↦ inl (rw (mount, refused) refl)
        | inr (new, given) ↦ inr (rw (mount, given) (inject_env-HasAgent c new given))
      ]
]

repair_container_again :
    (c : Container) → repair_container (repair_container c) ≡ repair_container c
repair_container_again c = elim (repair_container-cases c) [
  | inl same ↦ ap repair_container same
  | inr there ↦ agent-repaired (repair_container c) there
]

repaired_again :
    (cs : List Container) → map repair_container (map repair_container cs) ≡ map repair_container cs
repaired_again [] = refl
repaired_again (c ∷ cs) =
    ap (λ x. x ∷ map repair_container (map repair_container cs)) (repair_container_again c)
    ∙ ap (◌∷◌ (repair_container c)) (repaired_again cs)

abbrev mutated : Pod → Pod
mutated pod = with_containers pod (map repair_container pod.spec.containers)

-- The repair answers with the pod, or with the pod whose containers are repaired.
module _ (P : Pod → Type 0) where
  pub repair_cases : (pod : Pod) → P pod → P (mutated pod) → P (repair_java_agent_env pod)
  unfolding repair_java_agent_env
  repair_cases pod h k = if-cases P (not (is_empty_dir_volume ddtrace_volume_name pod)) pod _ h (
      if-cases P (not (init_has_mount pod.spec.init_containers)) pod _ h (
        if-cases P (not (any has_library_mount pod.spec.containers)) pod _ h
          (if-cases P (changed pod (mutated pod)) (mutated pod) pod k h)))

pub repair-same :
    (pod : Pod)
    → map repair_container pod.spec.containers ≡ pod.spec.containers
    → repair_java_agent_env pod ≡ pod
repair-same pod h = repair_cases (λ p. p ≡ pod) pod refl (ap (with_containers pod) h)

pub agents-repair-same :
    (pod : Pod) → HasAgents pod.spec.containers → repair_java_agent_env pod ≡ pod
agents-repair-same pod h = repair-same pod (agents-repaired pod.spec.containers h)

which_repair :
    (pod : Pod) → (repair_java_agent_env pod ≡ pod) ⊎ (repair_java_agent_env pod ≡ mutated pod)
which_repair pod = repair_cases (λ p. (p ≡ pod) ⊎ (p ≡ mutated pod)) pod (inl refl) (inr refl)

-- A second repair changes nothing.
pub repair_again :
    (pod : Pod) → repair_java_agent_env (repair_java_agent_env pod) ≡ repair_java_agent_env pod
repair_again pod = elim (which_repair pod) [
  | inl same ↦ ap repair_java_agent_env same
  | inr done ↦
      ap repair_java_agent_env done
      ∙ repair-same (mutated pod) (repaired_again pod.spec.containers)
      ∙ sym done
]
