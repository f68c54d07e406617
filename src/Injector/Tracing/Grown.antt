-- ===== src/Injector/Tracing/Grown.antt =====
-- The growth of a pod by one of the tracing libraries.
use datakit_operator.Common.{Option, none, some, Bool, true, false, List, [], String, if-cases}
use datakit_operator.Kubernetes.{Pod}
use datakit_operator.Config.Rules.{DdTraceRule, OTelRule}
use datakit_operator.Manager.{contains_init_container}
use datakit_operator.Injector.Setting.{Setting, changed}
use datakit_operator.Injector.Grown.{Grows, GrowsResult, Grows-trans}
use datakit_operator.Injector.DdTrace.{ddtrace_init_container_name}
use datakit_operator.Injector.DdTrace.Process.{Selected, select_ddtrace, inject_ddtrace_to_pod}
use datakit_operator.Injector.DdTrace.Grown.{SelectedGrows, select_ddtrace-Grows}
use datakit_operator.Injector.OTel.Process.{inject_otel, inject_otel_to_pod}
use datakit_operator.Injector.OTel.Grown.{inject_otel-GrowsResult}
use datakit_operator.Injector.Tracing.{
  without_selection, or_changed, unless_selected, inject_tracing_to_pod,
}
use mathlib.Core.Option

-- The pod after a change has grown; a panic leaves none.
abbrev pub ChangeGrows : List String → Pod → Option (Bool × Pod) → Type 0
ChangeGrows names pod none = Unit
ChangeGrows names pod (some (changed, new)) = Grows names pod new

pub flagged-Grows :
    (names : List String) (pod : Pod) (flag : Pod → Bool) (o : Option Pod)
    → GrowsResult names pod o
    → ChangeGrows names pod (Option.map (λ new. (flag new, new)) o)
flagged-Grows names pod flag none h = tt
flagged-Grows names pod flag (some new) h = h

abbrev DecidedGrows : Pod → Option (Bool × Bool × Pod) → Type 0
DecidedGrows pod none = Unit
DecidedGrows pod (some (selected, changed, new)) = Grows [] pod new

decided-Grows :
    (pod : Pod) (flag : Pod → Bool) (o : Option Selected)
    → SelectedGrows pod o
    → DecidedGrows pod (Option.map (λ r. (r.0, flag r.1, r.1)) o)
decided-Grows pod flag none h = tt
decided-Grows pod flag (some (selected, new)) h = h

without_selection-Grows :
    (pod : Pod) (o : Option (Bool × Bool × Pod))
    → DecidedGrows pod o
    → ChangeGrows [] pod (Option.map without_selection o)
without_selection-Grows pod none h = tt
without_selection-Grows pod (some (selected, changed, new)) h = h

or_changed-Grows :
    (pod new : Pod) (c : Bool) (o : Option (Bool × Pod))
    → Grows [] pod new
    → ChangeGrows [] new o
    → ChangeGrows [] pod (Option.map (or_changed c) o)
or_changed-Grows pod new c none g h = tt
or_changed-Grows pod new c (some (changed, last)) g h = Grows-trans g h

module _ (s : Setting) (ddtraces : List (Option DdTraceRule)) (otels : List (Option OTelRule)) where
  otel_to_pod-Grows :
      (namespace : String) (pod : Pod)
      → ChangeGrows [] pod (inject_otel_to_pod s otels namespace pod)
  unfolding inject_otel_to_pod
  otel_to_pod-Grows namespace pod =
      flagged-Grows [] pod (changed pod) (inject_otel s otels namespace pod)
        (inject_otel-GrowsResult s otels namespace pod)

  unless_selected-Grows :
      (namespace : String) (pod : Pod) (o : Option (Bool × Bool × Pod))
      → DecidedGrows pod o
      → ChangeGrows [] pod (unless_selected s ddtraces otels namespace o)
  unfolding unless_selected
  unless_selected-Grows namespace pod none h = tt
  unless_selected-Grows namespace pod (some (true, changed, new)) h = h
  unless_selected-Grows namespace pod (some (false, changed, new)) h =
      or_changed-Grows pod new changed (inject_otel_to_pod s otels namespace new) h
        (otel_to_pod-Grows namespace new)

  pub tracing-Grows :
      (namespace : String) (pod : Pod)
      → ChangeGrows [] pod (inject_tracing_to_pod s ddtraces otels namespace pod)
  unfolding inject_tracing_to_pod inject_ddtrace_to_pod
  tracing-Grows namespace pod =
      let decided =
        decided-Grows pod (changed pod) (select_ddtrace s ddtraces namespace pod)
          (select_ddtrace-Grows s ddtraces namespace pod) in
      if-cases (ChangeGrows [] pod) (contains_init_container ddtrace_init_container_name pod) _ _
        (without_selection-Grows pod (inject_ddtrace_to_pod s ddtraces namespace pod) decided)
        (unless_selected-Grows namespace pod (inject_ddtrace_to_pod s ddtraces namespace pod)
          decided)
