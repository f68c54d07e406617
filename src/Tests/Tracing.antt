-- ===== src/Tests/Tracing.antt =====
-- The laws of the tracing injections, of flameshot and logfwd, and of the whole chain, at one pod and one
-- configuration; and runs of the injections.
use datakit_operator.Common.{
  Bool, inl, inr, ◌≡◌, refl, Option, none, some, true, false, String, List, [], ◌∷◌, map,
}
use datakit_operator.Kubernetes.{Container, Pod}
use datakit_operator.Manager.{contains_name, contains_init_container}
use datakit_operator.Config.Rules.{
  InjectRule, DdTraceRule, OTelRule, FlameshotRule, LogfwdRule, setup_rule,
}
use datakit_operator.Config.Setup.{Configuration, setup_configuration}
use datakit_operator.Webhook.Mutate.{Outcome, mutate_pod}
use datakit_operator.Webhook.Chain.{injectors}
use datakit_operator.Webhook.Chain.Grown.{GrowsOutcome, sidecars, mutate_pod-GrowsOutcome}
use datakit_operator.Webhook.Chain.Unfailing.{Succeeds, mutate_pod-Succeeds}
use datakit_operator.Injector.Flameshot.{inject_flameshot}
use datakit_operator.Injector.Flameshot.Served.{ProfilesResult, inject_flameshot-ProfilesResult}
use datakit_operator.Injector.Logfwd.Sources.{Decoders}
use datakit_operator.Injector.Logfwd.{inject_logfwd}
use datakit_operator.Injector.Logfwd.Mounted.{ForwardsResult}
use datakit_operator.Injector.Logfwd.Again.{inject_logfwd-ForwardsResult}
use datakit_operator.Injector.DdTrace.{ddtrace_init_container_name, matching_rule}
use datakit_operator.Injector.DdTrace.Process.{select_ddtrace}
use datakit_operator.Injector.DdTrace.Again.{Stable, select_ddtrace-Stable}
use datakit_operator.Injector.DdTrace.Installed.{DecidesResult, select_ddtrace-DecidesResult}
use datakit_operator.Injector.Tracing.{inject_tracing_to_pod}
use datakit_operator.Injector.Tracing.Exclusive.{
  HasAtMostOne, HasAtMostOneResult, inject_tracing_to_pod-HasAtMostOne,
}
use datakit_operator.Tests.Injection.{everywhere, setting, shop_pod, unmarshal}
use datakit_operator.Tests.Rules.{few, parses, configuration}

abbrev everywhere_rule : InjectRule
everywhere_rule = setup_rule few everywhere

abbrev ddtrace_rule : DdTraceRule
ddtrace_rule = record {
  rule = everywhere_rule;
  check_annotation = false;
  language = "java";
  php_loader_flavor = "";
}

abbrev ddtraces : List (Option DdTraceRule)
ddtraces = some ddtrace_rule ∷ []

abbrev otels : List (Option OTelRule)
otels = some (record { rule = everywhere_rule; check_annotation = false; language = "python" }) ∷ []

shop_pod_free : HasAtMostOne shop_pod
unfolding contains_init_container contains_name
shop_pod_free = refl

inject_tracing_to_pod-HasAtMostOne_example :
    HasAtMostOneResult (inject_tracing_to_pod setting ddtraces otels "ns" shop_pod)
inject_tracing_to_pod-HasAtMostOne_example =
    inject_tracing_to_pod-HasAtMostOne setting ddtraces otels "ns" shop_pod shop_pod_free

select_ddtrace-Stable_example :
    Stable setting ddtraces "ns" (select_ddtrace setting ddtraces "ns" shop_pod)
select_ddtrace-Stable_example = select_ddtrace-Stable setting ddtraces "ns" shop_pod

shop_pod_matched : matching_rule ddtraces "shop" shop_pod ≡ some (ddtrace_rule, "")
unfolding matching_rule setup_rule
shop_pod_matched = refl

shop_pod_fresh : contains_init_container ddtrace_init_container_name shop_pod ≡ false
unfolding contains_init_container contains_name
shop_pod_fresh = refl

select_ddtrace-DecidesResult_example :
    DecidesResult shop_pod (select_ddtrace setting ddtraces "ns" shop_pod)
select_ddtrace-DecidesResult_example =
    select_ddtrace-DecidesResult setting ddtraces "ns" shop_pod ddtrace_rule "" shop_pod_matched
      refl shop_pod_fresh

abbrev flameshots : List (Option FlameshotRule)
flameshots =
    some (record {
      rule = record everywhere_rule {
        envs =
            ("FLAMESHOT_PROFILING_PATH", "/profiles/") ∷ ("FLAMESHOT_HTTP_LOCAL_PORT", "8089") ∷ [];
      };
      processes = "java";
      enable_prometheus_annotations = true;
    })
    ∷ []

inject_flameshot-ProfilesResult_example :
    ProfilesResult shop_pod (inject_flameshot setting flameshots "ns" shop_pod)
inject_flameshot-ProfilesResult_example =
    inject_flameshot-ProfilesResult setting flameshots "ns" shop_pod

abbrev decoders : Decoders
decoders = record {
  compact = λ s. some s;
  instances = λ s. none;
  log_configs = λ s. some (some "/var/log/*.log" ∷ none ∷ []);
}

abbrev logfwds : List (Option LogfwdRule)
logfwds =
    some (record {
      rule = everywhere_rule;
      check_annotation = false;
      log_configs = "[{}]";
      log_volume_paths = "/data" ∷ [];
    })
    ∷ []

inject_logfwd-ForwardsResult_example :
    ForwardsResult shop_pod (inject_logfwd setting decoders logfwds shop_pod)
inject_logfwd-ForwardsResult_example =
    inject_logfwd-ForwardsResult setting decoders logfwds shop_pod

abbrev names : Option Pod → List (List String)
names none = []
names (some pod) =
    map Container.name pod.spec.containers
    ∷ map (λ v. v.name) pod.spec.volumes
    ∷ map (λ a. a.0) pod.annotations
    ∷ []

flameshot_run :
    names (inject_flameshot setting flameshots "ns" shop_pod)
    ≡ ("app" ∷ "side" ∷ "datakit-flameshot" ∷ [])
      ∷ ("data" ∷ "flameshot-volume" ∷ [])
      ∷ ("prometheus.io/scrape" ∷ "prometheus.io/port" ∷ "prometheus.io/scheme"
          ∷ "prometheus.io/path" ∷ "prometheus.io/param_measurement" ∷ [])
      ∷ []
unfolding inject_flameshot setup_rule
flameshot_run = refl

logfwd_run :
    names (inject_logfwd setting decoders logfwds shop_pod)
    ≡ ("app" ∷ "side" ∷ "datakit-logfwd" ∷ [])
      ∷ ("data" ∷ "datakit-logfwd-volume-0" ∷ "datakit-pod-info" ∷ [])
      ∷ []
      ∷ []
unfolding inject_logfwd setup_rule
logfwd_run = refl

mutate_pod-Succeeds_example : Succeeds (
    mutate_pod
      (injectors setting decoders unmarshal (setup_configuration few configuration))
      "ns"
      "web"
      shop_pod)
mutate_pod-Succeeds_example =
    mutate_pod-Succeeds setting decoders unmarshal configuration "ns" "web" shop_pod parses

-- A configuration that has rules for four of the injectors.
abbrev busy : Configuration
busy = record configuration {
  admission_inject = record (configuration.admission_inject) {
    ddtraces = ddtraces;
    otels = otels;
    logfwds = logfwds;
    flameshots = flameshots;
  };
}

mutate_pod-GrowsOutcome_example :
    GrowsOutcome sidecars shop_pod
      (mutate_pod (injectors setting decoders unmarshal busy) "ns" "web" shop_pod)
mutate_pod-GrowsOutcome_example =
    mutate_pod-GrowsOutcome setting decoders unmarshal busy "ns" "web" shop_pod

abbrev outcome_names : Outcome (Bool × Pod) → List (List String)
outcome_names (inl error) = []
outcome_names (inr (changed, pod)) = names (some pod)

busy_run :
    outcome_names (mutate_pod (injectors setting decoders unmarshal busy) "ns" "web" shop_pod)
    ≡ ("app" ∷ "side" ∷ "datakit-logfwd" ∷ "datakit-flameshot" ∷ [])
      ∷ ("data" ∷ "datakit-auto-instrument" ∷ "datakit-logfwd-volume-0" ∷ "datakit-pod-info"
          ∷ "flameshot-volume" ∷ [])
      ∷ ("prometheus.io/scrape" ∷ "prometheus.io/port" ∷ "prometheus.io/scheme"
          ∷ "prometheus.io/path" ∷ "prometheus.io/param_measurement" ∷ [])
      ∷ []
unfolding mutate_pod injectors setup_rule
busy_run = refl
