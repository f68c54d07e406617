-- ===== src/Injector/Unfailing/Tracing.antt =====
-- The tracing injections do not panic, if the quantities of every rule parse.
use mathlib.Core.Option
use datakit_operator.Common.{
  Option, none, some, Bool, true, false, not, List, [], ◌∷◌, String, ◌≡◌, refl, if-cases, is_some,
  All, lookup,
}
use datakit_operator.Common.Text.{◌⁀◌}
use datakit_operator.Kubernetes.{Pod}
use datakit_operator.Manager.{contains_init_container}
use datakit_operator.Config.Rules.{DdTraceRule, OTelRule}
use datakit_operator.Config.Setup.Usable.{IsUsable, RuleUsable}
use datakit_operator.Webhook.Mutate.{check_annotation_is_true}
use datakit_operator.Injector.Setting.{Setting, namespace_of, changed}
use datakit_operator.Injector.DdTrace
use datakit_operator.Injector.OTel
use datakit_operator.Injector.Tracing.{
  without_selection, or_changed, unless_selected, inject_tracing_to_pod,
}
use datakit_operator.Injector.Unfailing.{all-Usable, Usable, Given, resources-Given}

pub map-Given :
    {A : Type 0} {B : Type 0} (f : A → B) (o : Option A) → Given o → Given (Option.map f o)
map-Given f none h = h
map-Given f (some a) h = refl

module _ (s : Setting) where
  MatchedDdTrace : DdTrace.Matched → Type 0
  MatchedDdTrace none = Unit
  MatchedDdTrace (some (rule, version)) = IsUsable s.compilers rule.rule.resources

  ddtrace_version-usable :
      (rule : DdTraceRule) (o : Option String) (rest : DdTrace.Matched)
      → IsUsable s.compilers rule.rule.resources
      → MatchedDdTrace rest
      → MatchedDdTrace (DdTrace.if_version rule o rest)
  unfolding MatchedDdTrace
  ddtrace_version-usable rule none rest u h = h
  ddtrace_version-usable rule (some version) rest u h = u

  first_rule-Usable :
      (annotations : List (String × String)) (rules : List DdTraceRule)
      → All (Usable s.compilers DdTraceRule.rule) rules
      → MatchedDdTrace (DdTrace.first_rule annotations rules)
  unfolding DdTrace.first_rule MatchedDdTrace
  first_rule-Usable annotations [] u = tt
  first_rule-Usable annotations (rule ∷ rules) (here, u) =
      if-cases MatchedDdTrace rule.check_annotation _ (some (rule, ""))
        (ddtrace_version-usable rule
          (lookup ("admission.datakit/" ⁀ rule.language ⁀ "-lib.version") annotations)
          (DdTrace.first_rule annotations rules) here (first_rule-Usable annotations rules u))
        here

  ddtrace_library-Given :
      (rule : DdTraceRule) (version : String) (pod : Pod) (o : Option DdTrace.Library)
      → IsUsable s.compilers rule.rule.resources
      → Given (DdTrace.Process.with_library s rule version pod o)
  ddtrace_library-Given rule version pod none u = refl
  ddtrace_library-Given rule version pod (some library) u =
      resources-Given s rule.rule (DdTrace.Process.with_resources s rule version library pod) u
        (λ rs. refl)

  ddtrace-Given :
      (pod : Pod) (m : DdTrace.Matched)
      → MatchedDdTrace m
      → Given (DdTrace.Process.inject_selected s pod m)
  unfolding MatchedDdTrace
  ddtrace-Given pod none u = refl
  ddtrace-Given pod (some (rule, version)) u =
      if-cases Given (contains_init_container DdTrace.ddtrace_init_container_name pod)
        (some (true, DdTrace.Process.reinvoked rule pod)) _ refl
        (ddtrace_library-Given rule version pod (DdTrace.library_of rule.language) u)

  select_ddtrace-Given :
      (rules : List (Option DdTraceRule)) (namespace : String) (pod : Pod)
      → All (RuleUsable s.compilers DdTraceRule.rule) rules
      → Given (DdTrace.Process.select_ddtrace s rules namespace pod)
  unfolding DdTrace.Process.select_ddtrace DdTrace.matching_rule MatchedDdTrace
  select_ddtrace-Given rules namespace pod u =
      ddtrace-Given pod (DdTrace.matching_rule rules (namespace_of namespace pod) pod) (
        if-cases MatchedDdTrace
          (not (check_annotation_is_true pod.annotations "admission.datakit/ddtrace.enabled")) none
          _ tt
          (if-cases MatchedDdTrace (contains_init_container DdTrace.otel_init_container_name pod)
            none _ tt
            (first_rule-Usable pod.annotations _ (
              all-Usable s.compilers DdTraceRule.rule rules (namespace_of namespace pod) pod.labels
                u))))

  MatchedOTel : OTel.Matched → Type 0
  MatchedOTel none = Unit
  MatchedOTel (some (rule, version)) = IsUsable s.compilers rule.rule.resources

  otel_version-usable :
      (rule : OTelRule) (o : Option String) (rest : OTel.Matched)
      → IsUsable s.compilers rule.rule.resources
      → MatchedOTel rest
      → MatchedOTel (OTel.if_version rule o rest)
  unfolding MatchedOTel
  otel_version-usable rule none rest u h = h
  otel_version-usable rule (some version) rest u h = u

  select_otel-Usable :
      (rules : List OTelRule) (annotations : List (String × String))
      → All (Usable s.compilers OTelRule.rule) rules
      → MatchedOTel (OTel.select_otel_rule rules annotations)
  unfolding OTel.select_otel_rule MatchedOTel
  select_otel-Usable [] annotations u = tt
  select_otel-Usable (rule ∷ rules) annotations (here, u) =
      if-cases MatchedOTel rule.check_annotation _ (some (rule, ""))
        (otel_version-usable rule
          (lookup ("admission.datakit/otel-" ⁀ rule.language ⁀ "-lib.version") annotations)
          (OTel.select_otel_rule rules annotations) here (select_otel-Usable rules annotations u))
        here

  otel_library-Given :
      (rule : OTelRule) (version : String) (pod : Pod) (o : Option OTel.Library)
      → IsUsable s.compilers rule.rule.resources
      → Given (OTel.Process.with_library s rule version pod o)
  otel_library-Given rule version pod none u = refl
  otel_library-Given rule version pod (some library) u =
      resources-Given s rule.rule (OTel.Process.with_resources s rule version library pod) u
        (λ rs. refl)

  otel-Given :
      (pod : Pod) (m : OTel.Matched) → MatchedOTel m → Given (OTel.Process.inject_selected s pod m)
  unfolding MatchedOTel
  otel-Given pod none u = refl
  otel-Given pod (some (rule, version)) u =
      otel_library-Given rule version pod (OTel.library_of rule.language) u

  inject_otel-Given :
      (rules : List (Option OTelRule)) (namespace : String) (pod : Pod)
      → All (RuleUsable s.compilers OTelRule.rule) rules
      → Given (OTel.Process.inject_otel s rules namespace pod)
  unfolding OTel.Process.inject_otel
  inject_otel-Given rules namespace pod u =
      if-cases Given (check_annotation_is_true pod.annotations "admission.datakit/otel.enabled") _
        (some pod)
        (otel-Given pod _ (
          select_otel-Usable _ pod.annotations
            (all-Usable s.compilers OTelRule.rule rules (namespace_of namespace pod) pod.labels u)))
        refl

  module _ (ddtraces : List (Option DdTraceRule)) (otels : List (Option OTelRule))
      (otels_usable : All (RuleUsable s.compilers OTelRule.rule) otels) where
    unless_selected-Given :
        (namespace : String) (o : Option (Bool × Bool × Pod))
        → Given o
        → Given (unless_selected s ddtraces otels namespace o)
    unfolding unless_selected OTel.Process.inject_otel_to_pod
    unless_selected-Given namespace none h = h
    unless_selected-Given namespace (some (true, c, pod)) h = refl
    unless_selected-Given namespace (some (false, c, pod)) h = map-Given (or_changed c) _ (
        map-Given (λ new. (changed pod new, new)) _
          (inject_otel-Given otels namespace pod otels_usable))

    pub inject_tracing-Given :
        (namespace : String) (pod : Pod)
        → All (RuleUsable s.compilers DdTraceRule.rule) ddtraces
        → is_some (inject_tracing_to_pod s ddtraces otels namespace pod) ≡ true
    unfolding inject_tracing_to_pod DdTrace.Process.inject_ddtrace_to_pod
    inject_tracing-Given namespace pod u =
        let o : Option (Bool × Pod) = DdTrace.Process.select_ddtrace s ddtraces namespace pod in
        let first : Given (Option.map (λ r. (r.0, changed pod r.1, r.1)) o) =
          map-Given (λ (r : Bool × Pod). (r.0, changed pod r.1, r.1)) o
            (select_ddtrace-Given ddtraces namespace pod u) in
        if-cases Given (contains_init_container DdTrace.ddtrace_init_container_name pod) _ _
          (map-Given without_selection _ first) (unless_selected-Given namespace _ first)
