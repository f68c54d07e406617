-- ===== src/Injector/Tracing/Inits.antt =====
-- Which init containers the two tracing injections leave or add (apis/webhook/injector/ddtrace.go, otel.go).
use datakit_operator.Common.{
  Option, none, some, Bool, true, false, List, [], ◌∷◌, String, ◌≡◌, refl, ap, ◌∙◌, ◌==◌, inl, inr,
  Bool-cases, if◌then◌else◌,
}
use mathlib.Core.Path.{subst}
use datakit_operator.Kubernetes.{Container, Pod, ResourceRequirements}
use datakit_operator.Manager.{
  contains_name, add_named, add_init_container, contains_init_container, add_volume,
}
use datakit_operator.Manager.Named.{contains_name-append}
use datakit_operator.EnvBuilder.{build_envs, filter_and_set_resource_field_ref}
use datakit_operator.Config.Resource.{pull_policy}
use datakit_operator.Config.Rules.{DdTraceRule}
use datakit_operator.Injector.Setting.{Setting}
use datakit_operator.Injector.Image.{replace_image_version}
use datakit_operator.Injector.DdTrace
use datakit_operator.Injector.DdTrace.Outer.{
  SameOuter, inject_config-SameOuter, global_envs-SameOuter,
}

abbrev pub ddtrace_init : String
ddtrace_init = DdTrace.ddtrace_init_container_name

abbrev pub otel_init : String
otel_init = DdTrace.otel_init_container_name

stays : (b : Bool) → (if b then true else false) ≡ b
stays true = refl
stays false = refl

-- Another name is there after an addition just where it was there before.
add_named-other :
    (k : String) (c : Container) (cs : List Container)
    → (c.name == k) ≡ false
    → contains_name Container.name k (add_named Container.name c cs)
      ≡ contains_name Container.name k cs
unfolding add_named contains_name
add_named-other k c cs other = elim (Bool-cases (contains_name Container.name c.name cs)) [
  | inl old ↦ rw old refl
  | inr new ↦ rw new (
      contains_name-append Container.name k cs (c ∷ [])
      ∙ rw other (stays (contains_name Container.name k cs)))
]

pub contains_init-other :
    (k : String) (c : Container) (pod : Pod)
    → (c.name == k) ≡ false
    → contains_init_container k (add_init_container c pod) ≡ contains_init_container k pod
unfolding contains_init_container add_init_container
contains_init-other k c pod other = add_named-other k c pod.spec.init_containers other

contains-same :
    (k : String) (pod new : Pod)
    → new.spec.init_containers ≡ pod.spec.init_containers
    → contains_init_container k new ≡ contains_init_container k pod
unfolding contains_init_container
contains-same k pod new e = ap (contains_name Container.name k) e

-- What is completed is the pod that it was started from, or has the init containers of the other one.
completed-contains :
    (k : String) (s : Setting) (rule : DdTraceRule) (pod : Pod) (o : Option Pod) (b : Bool)
    → contains_init_container k pod ≡ b
    → ((new : Pod) → o ≡ some new → contains_init_container k new ≡ b)
    → contains_init_container k (DdTrace.Process.completed s rule pod o) ≡ b
unfolding DdTrace.inject_global_volume add_volume contains_init_container
completed-contains k s rule pod none b h next = h
completed-contains k s rule pod (some new) b h next =
    ap (contains_name Container.name k)
      (global_envs-SameOuter
        (filter_and_set_resource_field_ref (build_envs s.is_config_map_key rule.rule.envs true)
          new.spec.containers)
        (DdTrace.inject_global_volume new)).1
    ∙ next new refl

-- Whatever the first library does with a pod that it selects, another name of an init container is there
-- just where it was there before.
pub with_resources-contains :
    (k : String) (s : Setting) (rule : DdTraceRule) (version : String) (library : DdTrace.Library)
    (pod : Pod) (resources : ResourceRequirements) (b : Bool)
    → (ddtrace_init == k) ≡ false
    → contains_init_container k pod ≡ b
    → contains_init_container k (
        DdTrace.Process.completed s rule pod (
          DdTrace.inject_config library (
            add_init_container
              (DdTrace.init_container library
                (DdTrace.php_loader_flavor rule)
                (replace_image_version rule.rule.image version)
                (pull_policy rule.rule.image_pull_policy)
                resources)
              pod)))
      ≡ b
unfolding DdTrace.init_container
with_resources-contains k s rule version library pod resources b other h =
    let c : Container =
      DdTrace.init_container library (DdTrace.php_loader_flavor rule)
        (replace_image_version rule.rule.image version) (pull_policy rule.rule.image_pull_policy)
        resources in
    let started : Pod = add_init_container c pod in
    completed-contains k s rule pod (DdTrace.inject_config library started) b h λ new e.
      contains-same k started new
        (subst (SameOuter started) e (inject_config-SameOuter library started)).1
      ∙ contains_init-other k c pod other
      ∙ h
