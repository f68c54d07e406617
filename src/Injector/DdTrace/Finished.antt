-- ===== src/Injector/DdTrace/Finished.antt =====
-- The pod that an injection of the Datadog library finishes, and what a second look at it finds.
use mathlib.Core.Path.{subst}
use mathlib.Core.Option.{some_inj}
use datakit_operator.Common.{
  Option, none, some, Bool, true, not, List, String, ◌==◌, ◌≡◌, refl, sym, ap, ◌∙◌, inl, inr,
  Bool-cases, if◌then◌else◌,
}
use datakit_operator.Kubernetes.{Container, Pod}
use datakit_operator.Manager.{
  contains_name, add_init_container, contains_init_container, add_volume,
}
use datakit_operator.Manager.Named.{add_named-contains}
use datakit_operator.EnvBuilder.{build_envs, filter_and_set_resource_field_ref}
use datakit_operator.Config.Rules.{DdTraceRule, match_all_inject_rules}
use datakit_operator.Webhook.Mutate.{check_annotation_is_true}
use datakit_operator.Injector.Setting.{Setting, namespace_of}
use datakit_operator.Injector.DdTrace.{
  otel_init_container_name, Library, java, library_of, Matched, first_rule, matching_rule,
  inject_config, inject_global_volume,
}
use datakit_operator.Injector.DdTrace.Process.{completed, reinvoked}
use datakit_operator.Injector.DdTrace.Outer.{
  outer, SameOuter, SameOuter-trans, global_envs-SameOuter, global_volume-SameOuter,
}
use datakit_operator.Injector.DdTrace.Repaired.{
  HasAgents, HasAgentsPod, java-HasAgents, global_envs-HasAgents, agents-repair-same,
}

-- The rule is the same for pods that differ in containers and volumes, and have the OpenTelemetry library
-- both or neither.
pub matching_rule-outer :
    (rules : List (Option DdTraceRule)) (namespace : String) (a b : Pod)
    → outer a ≡ outer b
    → contains_init_container otel_init_container_name a
      ≡ contains_init_container otel_init_container_name b
    → matching_rule rules (namespace_of namespace a) a
      ≡ matching_rule rules (namespace_of namespace b) b
unfolding matching_rule
matching_rule-outer rules namespace a b same otel =
    let matching_outer : Pod → Bool → Matched = λ p has_otel.
      if not (check_annotation_is_true p.annotations "admission.datakit/ddtrace.enabled")
      then none
      else if has_otel
      then none
      else first_rule p.annotations
          (match_all_inject_rules DdTraceRule.rule rules (namespace_of namespace p) p.labels) in
    ap (λ p. matching_outer p (contains_init_container otel_init_container_name a)) same
    ∙ ap (matching_outer (outer b)) otel

pub java-library :
    (language : String) (library : Library)
    → (language == "java") ≡ true
    → library_of language ≡ some library
    → library ≡ java
unfolding library_of
java-library language library j h = sym (some_inj.0 (rw j at h))

pub contains-SameOuter :
    (k : String) (pod new : Pod)
    → SameOuter pod (some new)
    → contains_init_container k new ≡ contains_init_container k pod
unfolding contains_init_container
contains-SameOuter k pod new h = ap (contains_name Container.name k) h.1

pub started-contains :
    (c : Container) (pod : Pod) → contains_init_container c.name (add_init_container c pod) ≡ true
unfolding contains_init_container add_init_container
started-contains c pod = add_named-contains Container.name c pod.spec.init_containers

pub started-outer : (c : Container) (pod : Pod) → outer (add_init_container c pod) ≡ outer pod
unfolding add_init_container
started-outer c pod = refl

-- The pod after the library's part, with the volume and the variables of the rule.
abbrev pub finished : Setting → DdTraceRule → Pod → Pod
finished s rule mutated = completed s rule mutated (some mutated)

pub finished-SameOuter :
    (s : Setting) (rule : DdTraceRule) (mutated : Pod)
    → SameOuter mutated (some (finished s rule mutated))
finished-SameOuter s rule mutated =
    let volume : Pod = inject_global_volume mutated in
    SameOuter-trans mutated volume (some (finished s rule mutated))
      (global_volume-SameOuter mutated)
      (global_envs-SameOuter
        (filter_and_set_resource_field_ref (build_envs s.is_config_map_key rule.rule.envs true)
          volume.spec.containers)
        volume)

pub finished-HasAgents :
    (s : Setting) (rule : DdTraceRule) (mutated : Pod)
    → HasAgents mutated.spec.containers
    → HasAgents (finished s rule mutated).spec.containers
unfolding inject_global_volume add_volume
finished-HasAgents s rule mutated h =
    global_envs-HasAgents
      (filter_and_set_resource_field_ref (build_envs s.is_config_map_key rule.rule.envs true)
        mutated.spec.containers)
      (inject_global_volume mutated) h

-- The second invocation finds nothing to repair in what the first one finished.
pub finished-reinvoked :
    (s : Setting) (rule : DdTraceRule) (library : Library) (started mutated : Pod)
    → library_of rule.language ≡ some library
    → inject_config library started ≡ some mutated
    → reinvoked rule (finished s rule mutated) ≡ finished s rule mutated
finished-reinvoked s rule library started mutated l i =
    elim (Bool-cases (rule.language == "java")) [
      | inr other ↦ rw other refl
      | inl j ↦
          let configured : inject_config java started ≡ some mutated =
            subst (λ x. inject_config x started ≡ some mutated)
              (java-library rule.language library j l) i in
          rw j (
            agents-repair-same (finished s rule mutated) (
              finished-HasAgents s rule mutated
                (subst HasAgentsPod configured (java-HasAgents started))))
    ]
