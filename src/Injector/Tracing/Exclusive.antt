-- ===== src/Injector/Tracing/Exclusive.antt =====
-- No pod gets both tracing libraries (apis/webhook/injector/tracing.go).
use mathlib.Core.Option
use datakit_operator.Common.{
  Option, none, some, Bool, true, false, ◌&&◌, List, String, ◌≡◌, refl, sym, ap, ◌∙◌, ◌==◌, inl,
  inr, Bool-cases, if-cases, is_some,
}
use mathlib.Core.Path.{subst}
use datakit_operator.Kubernetes.{Container, Pod, ResourceRequirements}
use datakit_operator.Manager.{contains_name, contains_init_container, add_volume}
use datakit_operator.Config.Resource.{pull_policy}
use datakit_operator.Config.Rules.{DdTraceRule, OTelRule, match_all_inject_rules}
use datakit_operator.Webhook.Mutate.{check_annotation_is_true}
use datakit_operator.Injector.Setting.{Setting, namespace_of, changed}
use datakit_operator.Injector.Image.{replace_image_version}
use datakit_operator.Injector.Utils.{container_resources}
use datakit_operator.Injector.DdTrace
use datakit_operator.Injector.DdTrace.Outer.{repair-SameOuter}
use datakit_operator.Injector.OTel
use datakit_operator.Injector.Tracing.{
  Change, without_selection, or_changed, unless_selected, inject_tracing_to_pod,
}
use datakit_operator.Injector.Tracing.Inits.{
  ddtrace_init, otel_init, contains_init-other, with_resources-contains,
}

-- Whether the first library was selected; if not, the pod is as it was.
abbrev Chosen : Pod → Option (Bool × Pod) → Type 0
Chosen pod none = Unit
Chosen pod (some (true, new)) = contains_init_container otel_init new ≡ false
Chosen pod (some (false, new)) = new ≡ pod

ddtrace_other : (ddtrace_init == otel_init) ≡ false
ddtrace_other = refl

resources-Chosen :
    (s : Setting) (rule : DdTraceRule) (version : String) (library : DdTrace.Library) (pod : Pod)
    (o : Option ResourceRequirements)
    → contains_init_container otel_init pod ≡ false
    → Chosen pod (DdTrace.Process.with_resources s rule version library pod o)
resources-Chosen s rule version library pod none h = tt
resources-Chosen s rule version library pod (some resources) h =
    with_resources-contains otel_init s rule version library pod resources false ddtrace_other h

library-Chosen :
    (s : Setting) (rule : DdTraceRule) (version : String) (pod : Pod) (o : Option DdTrace.Library)
    → contains_init_container otel_init pod ≡ false
    → Chosen pod (DdTrace.Process.with_library s rule version pod o)
library-Chosen s rule version pod none h = h
library-Chosen s rule version pod (some library) h =
    resources-Chosen s rule version library pod
      (container_resources s.compilers rule.rule.resources) h

reinvoked-keeps :
    (rule : DdTraceRule) (pod : Pod)
    → contains_init_container otel_init pod ≡ false
    → contains_init_container otel_init (DdTrace.Process.reinvoked rule pod) ≡ false
unfolding contains_init_container
reinvoked-keeps rule pod h =
    if-cases (λ p. contains_name Container.name otel_init p.spec.init_containers ≡ false)
      (rule.language == "java") (DdTrace.Process.repair_java_agent_env pod) pod
      (ap (contains_name Container.name otel_init) (repair-SameOuter pod).1 ∙ h) h

selected-Chosen :
    (s : Setting) (pod : Pod) (m : DdTrace.Matched)
    → contains_init_container otel_init pod ≡ false
    → Chosen pod (DdTrace.Process.inject_selected s pod m)
selected-Chosen s pod none h = refl
selected-Chosen s pod (some (rule, version)) h =
    elim (Bool-cases (contains_init_container ddtrace_init pod)) [
      | inl there ↦ rw there (reinvoked-keeps rule pod h)
      | inr absent ↦
          rw absent (library-Chosen s rule version pod (DdTrace.library_of rule.language) h)
    ]

-- A pod with the other library is not selected.
matching_rule-otel :
    (rules : List (Option DdTraceRule)) (namespace : String) (pod : Pod)
    → contains_init_container otel_init pod ≡ true
    → DdTrace.matching_rule rules namespace pod ≡ none
unfolding DdTrace.matching_rule
matching_rule-otel rules namespace pod h = rw h (if-cases (λ r. r ≡ none) _ none none refl refl)

select_ddtrace-Chosen :
    (s : Setting) (rules : List (Option DdTraceRule)) (namespace : String) (pod : Pod)
    → Chosen pod (DdTrace.Process.select_ddtrace s rules namespace pod)
unfolding DdTrace.Process.select_ddtrace
select_ddtrace-Chosen s rules namespace pod =
    elim (Bool-cases (contains_init_container otel_init pod)) [
      | inl there ↦ rw (matching_rule-otel rules (namespace_of namespace pod) pod there) refl
      | inr absent ↦
          selected-Chosen s pod (DdTrace.matching_rule rules (namespace_of namespace pod) pod)
            absent
    ]

-- The other library leaves the first one's init container out, or where it is.
abbrev KeepsDdTrace : Pod → Option Pod → Type 0
KeepsDdTrace pod none = Unit
KeepsDdTrace pod (some new) =
    contains_init_container ddtrace_init new ≡ contains_init_container ddtrace_init pod

inject_all-keeps :
    (s : Setting) (rule : OTelRule) (library : OTel.Library) (c : Container) (pod : Pod)
    → c.name ≡ otel_init
    → contains_init_container ddtrace_init (OTel.Process.inject_all s rule library c pod)
      ≡ contains_init_container ddtrace_init pod
unfolding OTel.Process.inject_all OTel.Process.inject_otel_envs OTel.Process.inject_library
    OTel.Process.inject_volume add_volume contains_init_container
inject_all-keeps s rule library c pod named = contains_init-other ddtrace_init c pod (rw named refl)

checked-keeps :
    (s : Setting) (rule : OTelRule) (library : OTel.Library) (c : Container) (pod : Pod)
    → c.name ≡ otel_init
    → KeepsDdTrace pod (some (OTel.Process.checked s rule library c pod))
checked-keeps s rule library c pod named =
    let P : Pod → Type 0 =
      λ new. contains_init_container ddtrace_init new ≡ contains_init_container ddtrace_init pod in
    if-cases P
      (OTel.Process.run_as_non_root_without_non_root_user pod.spec.security_context
        c.security_context)
      pod _ refl
      (if-cases P (is_some (OTel.Validation.refusal s library rule.rule.image c pod)) pod _ refl
        (inject_all-keeps s rule library c pod named))

otel_resources-keeps :
    (s : Setting) (rule : OTelRule) (version : String) (library : OTel.Library) (pod : Pod)
    (o : Option ResourceRequirements)
    → KeepsDdTrace pod (OTel.Process.with_resources s rule version library pod o)
unfolding OTel.Process.init_container
otel_resources-keeps s rule version library pod none = tt
otel_resources-keeps s rule version library pod (some resources) =
    checked-keeps s rule library
      (OTel.Process.init_container library (replace_image_version rule.rule.image version)
        (pull_policy rule.rule.image_pull_policy) resources pod.spec.containers)
      pod refl

otel_library-keeps :
    (s : Setting) (rule : OTelRule) (version : String) (pod : Pod) (o : Option OTel.Library)
    → KeepsDdTrace pod (OTel.Process.with_library s rule version pod o)
otel_library-keeps s rule version pod none = refl
otel_library-keeps s rule version pod (some library) =
    otel_resources-keeps s rule version library pod
      (container_resources s.compilers rule.rule.resources)

otel_selected-keeps :
    (s : Setting) (pod : Pod) (m : OTel.Matched)
    → KeepsDdTrace pod (OTel.Process.inject_selected s pod m)
otel_selected-keeps s pod none = refl
otel_selected-keeps s pod (some (rule, version)) =
    otel_library-keeps s rule version pod (OTel.library_of rule.language)

inject_otel-keeps :
    (s : Setting) (rules : List (Option OTelRule)) (namespace : String) (pod : Pod)
    → KeepsDdTrace pod (OTel.Process.inject_otel s rules namespace pod)
unfolding OTel.Process.inject_otel
inject_otel-keeps s rules namespace pod =
    if-cases (KeepsDdTrace pod)
      (check_annotation_is_true pod.annotations "admission.datakit/otel.enabled") _ (some pod)
      (otel_selected-keeps s pod (
        OTel.select_otel_rule
          (match_all_inject_rules OTelRule.rule rules (namespace_of namespace pod) pod.labels)
          pod.annotations))
      refl

abbrev pub HasAtMostOne : Pod → Type 0
HasAtMostOne pod =
    (contains_init_container ddtrace_init pod && contains_init_container otel_init pod) ≡ false

abbrev pub HasAtMostOneResult : Change → Type 0
HasAtMostOneResult none = Unit
HasAtMostOneResult (some (changed, new)) = HasAtMostOne new

and-false : (a b : Bool) → b ≡ false → (a && b) ≡ false
and-false true b h = h
and-false false b h = refl

-- The first library's turn.
first-HasAtMostOne :
    (s : Setting) (pod : Pod) (o : Option (Bool × Pod))
    → HasAtMostOne pod
    → Chosen pod o
    → HasAtMostOneResult
        (Option.map without_selection (Option.map (λ r. (r.0, changed pod r.1, r.1)) o))
first-HasAtMostOne s pod none h c = tt
first-HasAtMostOne s pod (some (true, new)) h c =
    and-false (contains_init_container ddtrace_init new) _ c
first-HasAtMostOne s pod (some (false, new)) h c = subst HasAtMostOne (sym c) h

module _ (s : Setting) (ddtraces : List (Option DdTraceRule)) (otels : List (Option OTelRule)) where
  second-HasAtMostOne :
      (c : Bool) (pod : Pod) (o : Option Pod)
      → contains_init_container ddtrace_init pod ≡ false
      → KeepsDdTrace pod o
      → HasAtMostOneResult
          (Option.map (or_changed c) (Option.map (λ new. (changed pod new, new)) o))
  second-HasAtMostOne c pod none h k = tt
  second-HasAtMostOne c pod (some new) h k =
      ap (λ b. b && contains_init_container otel_init new) (k ∙ h)

  both-HasAtMostOne :
      (namespace : String) (pod : Pod) (o : Option (Bool × Pod))
      → contains_init_container ddtrace_init pod ≡ false
      → Chosen pod o
      → HasAtMostOneResult (
          unless_selected s ddtraces otels namespace
            (Option.map (λ r. (r.0, changed pod r.1, r.1)) o))
  unfolding unless_selected OTel.Process.inject_otel_to_pod
  both-HasAtMostOne namespace pod none h c = tt
  both-HasAtMostOne namespace pod (some (true, new)) h c =
      and-false (contains_init_container ddtrace_init new) _ c
  both-HasAtMostOne namespace pod (some (false, new)) h c =
      second-HasAtMostOne (changed pod new) new (OTel.Process.inject_otel s otels namespace new)
        (subst (λ p. contains_init_container ddtrace_init p ≡ false) (sym c) h)
        (inject_otel-keeps s otels namespace new)

  -- If a pod has not the init containers of both tracing libraries, then it has not both after
  -- InjectTracingToPod, whatever the rules of the two libraries select; a panic leaves no pod.
  pub inject_tracing_to_pod-HasAtMostOne :
      (namespace : String) (pod : Pod)
      → HasAtMostOne pod
      → HasAtMostOneResult (inject_tracing_to_pod s ddtraces otels namespace pod)
  unfolding inject_tracing_to_pod DdTrace.Process.inject_ddtrace_to_pod
  inject_tracing_to_pod-HasAtMostOne namespace pod h =
      let o : Option (Bool × Pod) = DdTrace.Process.select_ddtrace s ddtraces namespace pod in
      let chosen = select_ddtrace-Chosen s ddtraces namespace pod in
      elim (Bool-cases (contains_init_container ddtrace_init pod)) [
        | inl there ↦ rw there (first-HasAtMostOne s pod o h chosen)
        | inr absent ↦ rw absent (both-HasAtMostOne namespace pod o absent chosen)
      ]
