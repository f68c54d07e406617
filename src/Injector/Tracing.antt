-- ===== src/Injector/Tracing.antt =====
-- apis/webhook/injector/tracing.go: at most one of the two tracing libraries.
pub mod Grown
pub mod Inits
pub mod Exclusive
use mathlib.Core.Option
use datakit_operator.Common.{
  Option, none, some, Bool, true, false, ◌||◌, List, String, if◌then◌else◌,
}
use datakit_operator.Kubernetes.{Pod}
use datakit_operator.Manager.{contains_init_container}
use datakit_operator.Config.Rules.{DdTraceRule, OTelRule}
use datakit_operator.Injector.Setting.{Setting}
use datakit_operator.Injector.DdTrace.{ddtrace_init_container_name}
use datakit_operator.Injector.DdTrace.Process.{inject_ddtrace_to_pod}
use datakit_operator.Injector.OTel.Process.{inject_otel_to_pod}

-- `none` is a panic of one of the injections.
abbrev pub Change : Type 0
Change = Option (Bool × Pod)

abbrev pub without_selection : Bool × Bool × Pod → Bool × Pod
without_selection (selected, changed, pod) = (changed, pod)

abbrev pub or_changed : Bool → Bool × Pod → Bool × Pod
or_changed changed (c, pod) = (changed || c, pod)

module _ (s : Setting) (ddtraces : List (Option DdTraceRule)) (otels : List (Option OTelRule)) where
  -- The other library has its turn where no rule of the first one was selected.
  unfoldable pub unless_selected : String → Option (Bool × Bool × Pod) → Change
  unfolding inject_otel_to_pod
  unless_selected namespace none = none
  unless_selected namespace (some (true, changed, pod)) = some (changed, pod)
  unless_selected namespace (some (false, changed, pod)) =
      Option.map (or_changed changed) (inject_otel_to_pod s otels namespace pod)

  -- `InjectTracingToPod`
  unfoldable pub inject_tracing_to_pod : String → Pod → Change
  unfolding unless_selected inject_ddtrace_to_pod
  inject_tracing_to_pod namespace pod =
      if contains_init_container ddtrace_init_container_name pod
      then Option.map without_selection (inject_ddtrace_to_pod s ddtraces namespace pod)
      else unless_selected namespace (inject_ddtrace_to_pod s ddtraces namespace pod)
