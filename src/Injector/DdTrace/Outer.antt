-- ===== src/Injector/DdTrace/Outer.antt =====
-- What the steps of apis/webhook/injector/ddtrace.go leave of a pod: all but its containers, its volumes and,
-- in the first step alone, its init containers.
use datakit_operator.Common.{Option, none, some, List, [], ◌∷◌, map, String, ◌≡◌, refl, ◌∙◌}
use datakit_operator.Kubernetes.{EnvVar, Container, Pod}
use datakit_operator.Manager.{with_containers, add_volume, add_volume_mount}
use datakit_operator.Injector.DdTrace.Options.{
  append_java_agent_if_missing, append_option_if_missing, python_path, php_scan_dir,
  php_package_path, nodejs_init_option,
}
use datakit_operator.Injector.DdTrace.{
  java_tool_options_key, Library, java, python, php, nodejs, inject_envs, mounted,
  inject_ddtrace_config, and_then, inject_config, put_env_in, inject_global_envs,
  inject_global_volume,
}
use datakit_operator.Injector.DdTrace.Process.{repair_java_agent_env}
use datakit_operator.Injector.DdTrace.Repaired.{repair_cases}

-- A pod but for its containers, init containers and volumes.
abbrev pub outer : Pod → Pod
outer pod = record pod {
  spec = record (pod.spec) { containers = []; init_containers = []; volumes = [] };
}

abbrev pub SameOuter : Pod → Option Pod → Type 0
SameOuter pod none = Unit
SameOuter pod (some new) =
    (outer new ≡ outer pod) × (new.spec.init_containers ≡ pod.spec.init_containers)

pub SameOuter-trans :
    (pod new : Pod) (o : Option Pod) → SameOuter pod (some new) → SameOuter new o → SameOuter pod o
SameOuter-trans pod new none h k = tt
SameOuter-trans pod new (some last) (h, i) (k, j) = (k ∙ h, j ∙ i)

mounted-SameOuter : (pod : Pod) (o : Option (List Container)) → SameOuter pod (mounted pod o)
unfolding add_volume_mount
mounted-SameOuter pod none = tt
mounted-SameOuter pod (some cs) = (refl, refl)

ddtrace_config-SameOuter :
    (key : String) (value : String → String) (pod : Pod)
    → SameOuter pod (inject_ddtrace_config key value pod)
unfolding inject_ddtrace_config
ddtrace_config-SameOuter key value pod =
    mounted-SameOuter pod (inject_envs key value pod.spec.containers)

and_then-SameOuter :
    (pod : Pod) (o : Option Pod) (next : Pod → Option Pod)
    → SameOuter pod o
    → ((p : Pod) → SameOuter p (next p))
    → SameOuter pod (and_then o next)
and_then-SameOuter pod none next h k = tt
and_then-SameOuter pod (some new) next h k = SameOuter-trans pod new (next new) h (k new)

pub inject_config-SameOuter :
    (library : Library) (pod : Pod) → SameOuter pod (inject_config library pod)
unfolding inject_config
inject_config-SameOuter java pod =
    ddtrace_config-SameOuter java_tool_options_key append_java_agent_if_missing pod
inject_config-SameOuter python pod = ddtrace_config-SameOuter "PYTHONPATH" python_path pod
inject_config-SameOuter nodejs pod =
    ddtrace_config-SameOuter "NODE_OPTIONS" (λ v. append_option_if_missing v nodejs_init_option) pod
inject_config-SameOuter php pod =
    and_then-SameOuter pod (inject_ddtrace_config "DD_LOADER_PACKAGE_PATH" php_package_path pod)
      (inject_ddtrace_config "PHP_INI_SCAN_DIR" php_scan_dir)
      (ddtrace_config-SameOuter "DD_LOADER_PACKAGE_PATH" php_package_path pod)
      (ddtrace_config-SameOuter "PHP_INI_SCAN_DIR" php_scan_dir)

pub global_envs-SameOuter :
    (es : List EnvVar) (pod : Pod) → SameOuter pod (some (inject_global_envs es pod))
unfolding inject_global_envs
global_envs-SameOuter [] pod = (refl, refl)
global_envs-SameOuter (e ∷ es) pod =
    global_envs-SameOuter es (with_containers pod (map (put_env_in e) pod.spec.containers))

pub global_volume-SameOuter : (pod : Pod) → SameOuter pod (some (inject_global_volume pod))
unfolding inject_global_volume add_volume
global_volume-SameOuter pod = (refl, refl)

pub repair-SameOuter : (pod : Pod) → SameOuter pod (some (repair_java_agent_env pod))
repair-SameOuter pod = repair_cases (λ p. SameOuter pod (some p)) pod (refl, refl) (refl, refl)
