-- ===== src/Webhook/Chain/Unfailing.antt =====
-- The mutation of a pod never fails under a configuration that was set up.
use datakit_operator.Common.{
  Option, none, some, Bool, true, false, ◌||◌, List, [], ◌∷◌, String, ◌≡◌, inl, inr, is_some,
  if-cases, All,
}
use mathlib.Core.Bool.{false≢true}
use datakit_operator.Kubernetes.{Pod}
use datakit_operator.Config.Setup.{AdmissionInjectConfig, Configuration, setup_configuration}
use datakit_operator.Config.Setup.Usable.{
  ParsesDefaults, HasUsableRules, setup_configuration-HasUsableRules,
}
use datakit_operator.Webhook.Mutate.{
  Outcome, Injector, should_inject, record_change, then_run, run_injectors, in_order, mutate_pod,
}
use datakit_operator.Injector.Setting.{Setting, changed}
use datakit_operator.Injector.Profiler.{inject_profiler_to_pod}
use datakit_operator.Injector.Flameshot.{inject_flameshot_to_pod}
use datakit_operator.Injector.Logfwd.Sources.{Decoders}
use datakit_operator.Injector.Logfwd.{inject_logfwd_to_pod}
use datakit_operator.Injector.Unfailing.{
  inject_profiler-Given, inject_flameshot-Given, inject_logfwd-Given,
}
use datakit_operator.Injector.Unfailing.Tracing.{inject_tracing-Given, map-Given}
use datakit_operator.Mutator.Logging.{LogConfig}
use datakit_operator.Webhook.Chain.{or_panic, injectors}

-- There is a result, and no error.
abbrev pub Succeeds : {A : Type 0} → Outcome A → Type 0
Succeeds (inl error) = ⊥
Succeeds (inr result) = Unit

or_panic-Succeeds : (o : Option (Bool × Pod)) → is_some o ≡ true → Succeeds (or_panic o)
or_panic-Succeeds none h = absurd (false≢true h)
or_panic-Succeeds (some r) h = tt

-- An injector that has a result for every pod.
abbrev AlwaysSucceeds : Injector → Type 0
AlwaysSucceeds inject =
    (namespace parent : String) (pod : Pod) → Succeeds (inject namespace parent pod)

then_run-Succeeds :
    (changed : Bool) (o : Outcome (Bool × Pod)) (next : Bool → Pod → Outcome (Bool × Pod))
    → Succeeds o
    → ((c : Bool) (pod : Pod) → Succeeds (next c pod))
    → Succeeds (then_run (record_change changed o) next)
unfolding record_change
then_run-Succeeds changed (inl error) next h k = absurd h
then_run-Succeeds changed (inr (ok, pod)) next h k = k (changed || ok) pod

run_injectors-Succeeds :
    (is : List Injector) (namespace parent : String) (changed : Bool) (pod : Pod)
    → All AlwaysSucceeds is
    → Succeeds (run_injectors is namespace parent changed pod)
unfolding run_injectors
run_injectors-Succeeds [] namespace parent changed pod h = tt
run_injectors-Succeeds (inject ∷ is) namespace parent changed pod (here, h) =
    then_run-Succeeds changed (inject namespace parent pod) (run_injectors is namespace parent)
      (here namespace parent pod) (λ c new. run_injectors-Succeeds is namespace parent c new h)

module _ (s : Setting) (d : Decoders) (unmarshal : String → Option (List LogConfig)) where
  chain-Succeeds :
      (cfg : Configuration) (namespace parent : String) (pod : Pod)
      → HasUsableRules s.compilers cfg.admission_inject
      → Succeeds (mutate_pod (injectors s d unmarshal cfg) namespace parent pod)
  unfolding mutate_pod injectors inject_logfwd_to_pod inject_flameshot_to_pod inject_profiler_to_pod
  chain-Succeeds cfg namespace parent pod (dd, otel, logfwd, flameshot, profiler) =
      let a : AdmissionInjectConfig = cfg.admission_inject in
      let tracing : AlwaysSucceeds (injectors s d unmarshal cfg).tracing =
        λ n p new. or_panic-Succeeds _ (inject_tracing-Given s a.ddtraces a.otels otel n new dd) in
      let logfwds : AlwaysSucceeds (injectors s d unmarshal cfg).logfwd = λ n p new.
        or_panic-Succeeds _ (map-Given _ _ (inject_logfwd-Given s d a.logfwds new logfwd)) in
      let flameshots : AlwaysSucceeds (injectors s d unmarshal cfg).flameshot = λ n p new.
        or_panic-Succeeds _
          (map-Given _ _ (inject_flameshot-Given s a.flameshots n new flameshot)) in
      let profilers : AlwaysSucceeds (injectors s d unmarshal cfg).profiler = λ n p new.
        or_panic-Succeeds _ (map-Given _ _ (inject_profiler-Given s a.profilers n new profiler)) in
      if-cases Succeeds (should_inject pod.annotations) _ (inr (false, pod))
        (run_injectors-Succeeds (in_order (injectors s d unmarshal cfg)) namespace parent false pod
          (tracing, (logfwds, (flameshots, (profilers, ((λ n p new. tt), tt))))))
        tt

  -- If the four default quantities parse, then under any configuration after
  -- Configuration.Setup the mutation of every pod by the five injectors of the program has a
  -- result: no injection panics in setContainerResources and none answers with an error.
  pub mutate_pod-Succeeds :
      (cfg : Configuration) (namespace parent : String) (pod : Pod)
      → ParsesDefaults s.compilers
      → Succeeds (
          mutate_pod
            (injectors s d unmarshal (setup_configuration s.compilers cfg))
            namespace
            parent
            pod)
  mutate_pod-Succeeds cfg namespace parent pod defaults =
      chain-Succeeds (setup_configuration s.compilers cfg) namespace parent pod
        (setup_configuration-HasUsableRules s.compilers defaults cfg)
