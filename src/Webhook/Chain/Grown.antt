-- ===== src/Webhook/Chain/Grown.antt =====
-- What the mutation of a pod leaves as it was.
use datakit_operator.Common.{
  Option, none, some, Bool, false, ◌||◌, List, [], ◌∷◌, ◌++◌, String, inl, inr, if-cases,
}
use datakit_operator.Kubernetes.{Pod}
use datakit_operator.Config.Setup.{Configuration}
use datakit_operator.Webhook.Mutate.{
  Outcome, Injector, Injectors, should_inject, record_change, then_run, run_injectors, in_order,
  mutate_pod,
}
use datakit_operator.Injector.Setting.{Setting, changed}
use datakit_operator.Injector.Grown.{Grows, Grows-refl, Grows-trans}
use datakit_operator.Injector.Tracing.Grown.{ChangeGrows, flagged-Grows, tracing-Grows}
use datakit_operator.Injector.Logfwd.Sources.{Decoders}
use datakit_operator.Injector.Logfwd.{logfwd_container_name, inject_logfwd_to_pod}
use datakit_operator.Injector.Logfwd.Grown.{inject_logfwd-GrowsResult}
use datakit_operator.Injector.Flameshot.{flameshot_container_name, inject_flameshot_to_pod}
use datakit_operator.Injector.Flameshot.Grown.{inject_flameshot-GrowsResult}
use datakit_operator.Injector.Profiler.{profiler_container_name, inject_profiler_to_pod}
use datakit_operator.Injector.Profiler.Grown.{inject_profiler-GrowsResult}
use datakit_operator.Mutator.Logging.{LogConfig}
use datakit_operator.Mutator.Logging.Grown.{mutate_logging-Grows}
use datakit_operator.Webhook.Chain.{or_panic, mutate_logging_to_pod, injectors}

-- An error leaves no pod.
abbrev pub GrowsOutcome : List String → Pod → Outcome (Bool × Pod) → Type 0
GrowsOutcome names pod (inl error) = Unit
GrowsOutcome names pod (inr (changed, new)) = Grows names pod new

or_panic-Grows :
    (names : List String) (pod : Pod) (o : Option (Bool × Pod))
    → ChangeGrows names pod o
    → GrowsOutcome names pod (or_panic o)
or_panic-Grows names pod none h = tt
or_panic-Grows names pod (some (changed, new)) h = h

-- An injector under which every pod grows.
abbrev GrowsAlways : List String → Injector → Type 0
GrowsAlways names inject =
    (namespace parent : String) (pod : Pod) → GrowsOutcome names pod (inject namespace parent pod)

then_run-Grows :
    (ks js : List String) (pod : Pod) (c : Bool) (o : Outcome (Bool × Pod))
    (next : Bool → Pod → Outcome (Bool × Pod))
    → GrowsOutcome ks pod o
    → ((b : Bool) (new : Pod) → GrowsOutcome js new (next b new))
    → GrowsOutcome (ks ++ js) pod (then_run (record_change c o) next)
unfolding record_change
then_run-Grows ks js pod c (inl error) next h k = tt
then_run-Grows ks js pod c (inr (ok, new)) next h k =
    followed pod new (next (c || ok) new) h (k (c || ok) new)
  where
    followed :
        (a b : Pod) (r : Outcome (Bool × Pod))
        → Grows ks a b
        → GrowsOutcome js b r
        → GrowsOutcome (ks ++ js) a r
    followed a b (inl error) g l = tt
    followed a b (inr (d, last)) g l = Grows-trans g l

-- The rest of a chain, under which every pod grows.
abbrev RunGrows : List String → List Injector → Type 0
RunGrows names is =
    (namespace parent : String) (changed : Bool) (pod : Pod)
    → GrowsOutcome names pod (run_injectors is namespace parent changed pod)

run_none-Grows : RunGrows [] []
unfolding run_injectors
run_none-Grows namespace parent changed pod = Grows-refl [] pod

run_first-Grows :
    (ks js : List String) (inject : Injector) (is : List Injector)
    → GrowsAlways ks inject
    → RunGrows js is
    → RunGrows (ks ++ js) (inject ∷ is)
unfolding run_injectors
run_first-Grows ks js inject is h k namespace parent changed pod =
    then_run-Grows ks js pod changed (inject namespace parent pod)
      (run_injectors is namespace parent) (h namespace parent pod)
      (λ c new. k namespace parent c new)

-- The containers that the chain may add.
abbrev pub sidecars : List String
sidecars = logfwd_container_name ∷ flameshot_container_name ∷ profiler_container_name ∷ []

module _ (s : Setting) (d : Decoders) (unmarshal : String → Option (List LogConfig))
    (cfg : Configuration) where
  abbrev parts : Injectors
  parts = injectors s d unmarshal cfg

  tracing_part : GrowsAlways [] parts.tracing
  unfolding injectors
  tracing_part namespace parent pod =
      or_panic-Grows [] pod _
        (tracing-Grows s cfg.admission_inject.ddtraces cfg.admission_inject.otels namespace pod)

  logfwd_part : GrowsAlways (logfwd_container_name ∷ []) parts.logfwd
  unfolding injectors inject_logfwd_to_pod
  logfwd_part namespace parent pod = or_panic-Grows _ pod _ (
      flagged-Grows _ pod (changed pod) _
        (inject_logfwd-GrowsResult s d cfg.admission_inject.logfwds pod))

  flameshot_part : GrowsAlways (flameshot_container_name ∷ []) parts.flameshot
  unfolding injectors inject_flameshot_to_pod
  flameshot_part namespace parent pod = or_panic-Grows _ pod _ (
      flagged-Grows _ pod (changed pod) _
        (inject_flameshot-GrowsResult s cfg.admission_inject.flameshots namespace pod))

  profiler_part : GrowsAlways (profiler_container_name ∷ []) parts.profiler
  unfolding injectors inject_profiler_to_pod
  profiler_part namespace parent pod = or_panic-Grows _ pod _ (
      flagged-Grows _ pod (changed pod) _
        (inject_profiler-GrowsResult s cfg.admission_inject.profilers namespace pod))

  logging_part : GrowsAlways [] parts.logging
  unfolding injectors mutate_logging_to_pod
  logging_part namespace parent pod = mutate_logging-Grows unmarshal cfg.loggings namespace pod

  chain-Grows : RunGrows sidecars (in_order parts)
  chain-Grows =
      let last = run_first-Grows [] [] parts.logging [] logging_part run_none-Grows in
      let profiler =
        run_first-Grows (profiler_container_name ∷ []) [] parts.profiler _ profiler_part last in
      let flameshot =
        run_first-Grows (flameshot_container_name ∷ []) _ parts.flameshot _ flameshot_part
          profiler in
      run_first-Grows [] sidecars parts.tracing _ tracing_part
        (run_first-Grows (logfwd_container_name ∷ []) _ parts.logfwd _ logfwd_part flameshot)

  -- Whatever the configuration is, a pod that the five injectors of the program mutate without
  -- a panic only grows: it keeps its name, namespace and labels, the value of every annotation,
  -- its volumes and its init containers, with others of new names behind them, and the rest of
  -- its spec but for the restart policy and the sharing of processes. Its containers stay in
  -- their order, and behind them stand at most one datakit-logfwd, one datakit-flameshot and
  -- one datakit-profiler, in this order. Each container keeps its mounts, with others of new
  -- names behind them, the first variable of every name that is not DD_TAGS or one of the five
  -- variables that load a tracing library, and everything that is neither a variable nor a
  -- mount.
  pub mutate_pod-GrowsOutcome :
      (namespace parent : String) (pod : Pod)
      → GrowsOutcome sidecars pod (mutate_pod parts namespace parent pod)
  unfolding mutate_pod
  mutate_pod-GrowsOutcome namespace parent pod =
      if-cases (GrowsOutcome sidecars pod) (should_inject pod.annotations) _ (inr (false, pod))
        (chain-Grows namespace parent false pod) (Grows-refl sidecars pod)
