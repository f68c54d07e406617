-- ===== src/Injector/Profiler/Again.antt =====
-- A second injection of the profiler changes nothing.
use datakit_operator.Common.{Option, some, true, String, List, ◌≡◌, refl}
use datakit_operator.Kubernetes.{Pod}
use datakit_operator.Manager.{contains_container}
use datakit_operator.Config.Rules.{ProfilerRule}
use datakit_operator.Injector.Setting.{Setting, namespace_of}
use datakit_operator.Injector.Added.{Settled, Settled-from}
use datakit_operator.Injector.Profiler.{profiler_container_name, inject_profiler}
use datakit_operator.Injector.Profiler.Kept.{inject_profiler-KeepsResult, matching_rule-present}

module _ (s : Setting) (rules : List (Option ProfilerRule)) (namespace : String) where
  present-settled :
      (pod : Pod)
      → contains_container profiler_container_name pod ≡ true
      → inject_profiler s rules namespace pod ≡ some pod
  unfolding inject_profiler
  present-settled pod h = rw (matching_rule-present rules (namespace_of namespace pod) pod h) refl

  -- When the injection of the profiler has made a pod without a panic, injecting into that pod
  -- with the same rules makes the same pod.
  pub inject_profiler-Settled :
      (pod : Pod)
      → Settled (inject_profiler s rules namespace) (inject_profiler s rules namespace pod)
  inject_profiler-Settled pod =
      Settled-from profiler_container_name (inject_profiler s rules namespace) present-settled pod
        (inject_profiler s rules namespace pod) refl
        (inject_profiler-KeepsResult s rules namespace pod)
