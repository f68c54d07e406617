-- ===== src/Injector/DdTrace/Again.antt =====
-- A second injection of the Datadog library changes nothing (process of apis/webhook/injector/ddtrace.go).
use mathlib.Core.Path.{subst}
use datakit_operator.Common.{
  Option, none, some, true, List, String, ◌==◌, ◌≡◌, refl, sym, ap, ◌∙◌, inl, inr, Bool-cases,
}
use datakit_operator.Kubernetes.{Container, Pod, ResourceRequirements}
use datakit_operator.Manager.{add_init_container, contains_init_container}
use datakit_operator.Config.Resource.{pull_policy}
use datakit_operator.Config.Rules.{DdTraceRule}
use datakit_operator.Injector.Setting.{Setting, namespace_of}
use datakit_operator.Injector.Image.{replace_image_version}
use datakit_operator.Injector.Utils.{container_resources}
use datakit_operator.Injector.DdTrace.{
  ddtrace_init_container_name, otel_init_container_name, Library, library_of, Matched,
  matching_rule, inject_config, php_loader_flavor, init_container,
}
use datakit_operator.Injector.DdTrace.Process.{
  repair_java_agent_env, completed, Selected, with_resources, with_library, reinvoked,
  inject_selected, select_ddtrace,
}
use datakit_operator.Injector.DdTrace.Outer.{
  outer, SameOuter, SameOuter-trans, inject_config-SameOuter, repair-SameOuter,
}
use datakit_operator.Injector.DdTrace.Repaired.{repair_again}
use datakit_operator.Injector.Tracing.Inits.{contains_init-other}
use datakit_operator.Injector.DdTrace.Finished.{
  matching_rule-outer, contains-SameOuter, started-contains, started-outer, finished,
  finished-SameOuter, finished-reinvoked,
}

module _ (s : Setting) (rules : List (Option DdTraceRule)) (namespace : String) where
  -- What was selected and made is selected and made again.
  pub Stable : Option Selected → Type 0
  Stable none = Unit
  Stable (some (selected, new)) = select_ddtrace s rules namespace new ≡ some (selected, new)

  module _ (rule : DdTraceRule) (version : String) (pod : Pod)
      (matched : matching_rule rules (namespace_of namespace pod) pod ≡ some (rule, version)) where
    again :
        (new : Pod)
        → outer new ≡ outer pod
        → contains_init_container otel_init_container_name new
          ≡ contains_init_container otel_init_container_name pod
        → contains_init_container ddtrace_init_container_name new ≡ true
        → reinvoked rule new ≡ new
        → select_ddtrace s rules namespace new ≡ some (true, new)
    unfolding select_ddtrace
    again new same otel there h =
        ap (inject_selected s new) (matching_rule-outer rules namespace new pod same otel ∙ matched)
        ∙ rw there (ap (λ p. some (true, p)) h)

    reinvoked-Stable :
        contains_init_container ddtrace_init_container_name pod ≡ true
        → select_ddtrace s rules namespace pod ≡ some (true, reinvoked rule pod)
        → Stable (some (true, reinvoked rule pod))
    unfolding Stable
    reinvoked-Stable there e = elim (Bool-cases (rule.language == "java")) [
      | inr other ↦ rw other (rw other at e)
      | inl j ↦
          let same = repair-SameOuter pod in
          let new : Pod = repair_java_agent_env pod in
          rw j (
            again new same.0 (contains-SameOuter otel_init_container_name pod new same)
              (contains-SameOuter ddtrace_init_container_name pod new same ∙ there)
              (rw j (repair_again pod)))
    ]

    completed-Stable :
        (library : Library) (c : Container) (o : Option Pod)
        → library_of rule.language ≡ some library
        → c.name ≡ ddtrace_init_container_name
        → inject_config library (add_init_container c pod) ≡ o
        → select_ddtrace s rules namespace pod ≡ some (true, completed s rule pod o)
        → Stable (some (true, completed s rule pod o))
    unfolding Stable
    completed-Stable library c none l named i e = e
    completed-Stable library c (some mutated) l named i e =
        let started : Pod = add_init_container c pod in
        let new : Pod = finished s rule mutated in
        let same : SameOuter started (some new) =
          SameOuter-trans started mutated (some new)
            (subst (SameOuter started) i (inject_config-SameOuter library started))
            (finished-SameOuter s rule mutated) in
        again new (same.0 ∙ started-outer c pod)
          (contains-SameOuter otel_init_container_name started new same
            ∙ contains_init-other otel_init_container_name c pod (rw named refl))
          (contains-SameOuter ddtrace_init_container_name started new same
            ∙ subst (λ k. contains_init_container k started ≡ true) named (started-contains c pod))
          (finished-reinvoked s rule library started mutated l i)

    resources-Stable :
        (library : Library) (o : Option ResourceRequirements)
        → library_of rule.language ≡ some library
        → select_ddtrace s rules namespace pod ≡ with_resources s rule version library pod o
        → Stable (with_resources s rule version library pod o)
    unfolding Stable init_container
    resources-Stable library none l e = tt
    resources-Stable library (some resources) l e =
        let c : Container =
          init_container library (php_loader_flavor rule)
            (replace_image_version rule.rule.image version)
            (pull_policy rule.rule.image_pull_policy) resources in
        completed-Stable library c (inject_config library (add_init_container c pod)) l refl refl e

    library-Stable :
        (o : Option Library)
        → library_of rule.language ≡ o
        → select_ddtrace s rules namespace pod ≡ with_library s rule version pod o
        → Stable (with_library s rule version pod o)
    unfolding Stable
    library-Stable none l e = e
    library-Stable (some library) l e =
        resources-Stable library (container_resources s.compilers rule.rule.resources) l e

  selected-Stable :
      (pod : Pod) (m : Matched)
      → matching_rule rules (namespace_of namespace pod) pod ≡ m
      → select_ddtrace s rules namespace pod ≡ inject_selected s pod m
      → Stable (inject_selected s pod m)
  unfolding Stable
  selected-Stable pod none matched e = e
  selected-Stable pod (some (rule, version)) matched e =
      elim (Bool-cases (contains_init_container ddtrace_init_container_name pod)) [
        | inl there ↦ rw there (reinvoked-Stable rule version pod matched there (rw there at e))
        | inr absent ↦ rw absent (
            library-Stable rule version pod matched (library_of rule.language) refl
              (rw absent at e))
      ]

  select_ddtrace_lem :
      (pod : Pod)
      → select_ddtrace s rules namespace pod
        ≡ inject_selected s pod (matching_rule rules (namespace_of namespace pod) pod)
  unfolding select_ddtrace
  select_ddtrace_lem pod = refl

  -- When the injection of the Datadog library has made a pod without a panic, injecting into
  -- that pod with the same rules and namespace selects as before and makes the same pod, also
  -- where the second injection goes through the repair of JAVA_TOOL_OPTIONS.
  pub select_ddtrace-Stable : (pod : Pod) → Stable (select_ddtrace s rules namespace pod)
  select_ddtrace-Stable pod =
      let m : Matched = matching_rule rules (namespace_of namespace pod) pod in
      let e : select_ddtrace s rules namespace pod ≡ inject_selected s pod m =
        select_ddtrace_lem pod in
      subst Stable (sym e) (selected-Stable pod m refl e)
