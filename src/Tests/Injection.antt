-- ===== src/Tests/Injection.antt =====
-- The laws of the injectors and of the mutation for logs at one pod.
use datakit_operator.Common.{Option, some, true, false, String, List, [], ◌∷◌}
use datakit_operator.Kubernetes.{Pod}
use datakit_operator.Config.Rules.{
  InjectRule, ProfilerRule, MutateRule, setup_rule, setup_mutate_rules,
}
use datakit_operator.Injector.Added.{KeepsResult, Settled}
use datakit_operator.Injector.Setting.{Setting}
use datakit_operator.Injector.Profiler.{inject_profiler, profiler_container_name}
use datakit_operator.Injector.Profiler.Kept.{inject_profiler-KeepsResult}
use datakit_operator.Injector.Profiler.Again.{inject_profiler-Settled}
use datakit_operator.Mutator.Logging.{LogConfig, mutate_logging}
use datakit_operator.Mutator.Logging.Kept.{LeavesRest, mutate_logging-LeavesRest}
use datakit_operator.Tests.Pods.{app_pod}
use datakit_operator.Tests.Rules.{few, rule, selector}

abbrev origin : List (String × String)
origin = ("env", "prod") ∷ []

abbrev added : List (String × String)
added = ("env", "test") ∷ ("team", "x") ∷ []

abbrev pub setting : Setting
setting = record { compilers = few; is_config_map_key = λ k. true; deep_derivative = λ d e. true }

abbrev pub everywhere : InjectRule
everywhere = record rule {
  selector = record selector { namespaces = "shop" ∷ []; labels = [] };
  envs = ("AGENT", "dk") ∷ ("NODE", "{fieldRef:spec.nodeName}") ∷ [];
}

abbrev profilers : List (Option ProfilerRule)
profilers =
    some (record {
      rule = setup_rule few everywhere;
      check_annotation = false;
      language = "java";
      images = ("java_profiler_image", "hub/profiler:1") ∷ [];
    })
    ∷ []

abbrev pub shop_pod : Pod
shop_pod = record app_pod { namespace = "shop"; labels = ("app", "web") ∷ []; annotations = [] }

inject_profiler-KeepsResult_example :
    KeepsResult profiler_container_name shop_pod (inject_profiler setting profilers "ns" shop_pod)
inject_profiler-KeepsResult_example = inject_profiler-KeepsResult setting profilers "ns" shop_pod

inject_profiler-Settled_example :
    Settled
      (inject_profiler setting profilers "ns")
      (inject_profiler setting profilers "ns" shop_pod)
inject_profiler-Settled_example = inject_profiler-Settled setting profilers "ns" shop_pod

abbrev pub unmarshal : String → Option (List LogConfig)
unmarshal s = some (record { disable = false; type = "file"; path = "/var/log/*.log" } ∷ [])

abbrev loggings : List (Option MutateRule)
loggings = setup_mutate_rules few (some (record { selector = selector; config = "[{}]" }) ∷ [])

mutate_logging-LeavesRest_example :
    LeavesRest shop_pod (mutate_logging unmarshal loggings "ns" shop_pod)
mutate_logging-LeavesRest_example = mutate_logging-LeavesRest unmarshal loggings "ns" shop_pod
