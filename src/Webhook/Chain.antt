-- ===== src/Webhook/Chain.antt =====
-- The injectors of apis/webhook/mutate.go over one configuration, in place of the five parameters of
-- Webhook.Mutate.
pub mod Unfailing
pub mod Grown
use datakit_operator.Common.{Option, none, some, Bool, List, String, inl, inr}
use datakit_operator.Kubernetes.{Pod}
use datakit_operator.Config.Setup.{Configuration}
use datakit_operator.Webhook.Mutate.{Outcome, panics, Injectors}
use datakit_operator.Injector.Setting.{Setting, changed}
use datakit_operator.Injector.Profiler.{inject_profiler_to_pod}
use datakit_operator.Injector.Flameshot.{inject_flameshot_to_pod}
use datakit_operator.Injector.Logfwd.Sources.{Decoders}
use datakit_operator.Injector.Logfwd.{inject_logfwd_to_pod}
use datakit_operator.Injector.Tracing.{inject_tracing_to_pod}
use datakit_operator.Mutator.Logging.{LogConfig, mutate_logging}

-- An injection without a result has panicked.
abbrev pub or_panic : Option (Bool × Pod) → Outcome (Bool × Pod)
or_panic none = inl panics
or_panic (some result) = inr result

-- `MutateLoggingToPod`
unfoldable pub mutate_logging_to_pod :
    (String → Option (List LogConfig)) → Configuration → String → Pod → Bool × Pod
unfolding mutate_logging changed
mutate_logging_to_pod unmarshal cfg namespace pod =
    let new = mutate_logging unmarshal cfg.loggings namespace pod in (changed pod new, new)

-- The injectors that `mutatePod` calls, with the configuration that they read.
unfoldable pub injectors :
    Setting → Decoders → (String → Option (List LogConfig)) → Configuration → Injectors
unfolding inject_tracing_to_pod inject_logfwd_to_pod inject_flameshot_to_pod inject_profiler_to_pod
    mutate_logging_to_pod
injectors s d unmarshal cfg =
    let a = cfg.admission_inject in
    record {
      tracing = λ namespace parent pod.
          or_panic (inject_tracing_to_pod s a.ddtraces a.otels namespace pod);
      logfwd = λ namespace parent pod. or_panic (inject_logfwd_to_pod s d a.logfwds pod);
      flameshot =
          λ namespace parent pod. or_panic (inject_flameshot_to_pod s a.flameshots namespace pod);
      profiler =
          λ namespace parent pod. or_panic (inject_profiler_to_pod s a.profilers namespace pod);
      logging = λ namespace parent pod. inr (mutate_logging_to_pod unmarshal cfg namespace pod);
    }
