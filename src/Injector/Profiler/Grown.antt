-- ===== src/Injector/Profiler/Grown.antt =====
-- The growth of a pod by the injection of the profiler.
use datakit_operator.Common.{
  Option, none, some, List, [], ◌∷◌, String, ◌==◌, refl, is_some, if-cases,
}
use datakit_operator.Kubernetes.{Pod, ResourceRequirements, plain_mount}
use datakit_operator.Manager.{find_volume_mount_path, add_volume_mount}
use datakit_operator.Manager.Named.{Extends-refl}
use datakit_operator.Config.Resource.{pull_policy}
use datakit_operator.Config.Rules.{ProfilerRule}
use datakit_operator.Injector.Setting.{Setting, namespace_of}
use datakit_operator.Injector.Grown.{Joined-refl, Grows, GrowsResult, Grows-refl, Grows-trans}
use datakit_operator.Injector.Grown.Steps.{
  add_container-Grows, add_volume-Grows, add_volume_mount-Grows,
}
use datakit_operator.Injector.Profiler.{
  Matched, profiler_envs, profiler_container_name, matching_rule, image_from_rule, reset_spec,
  profiler_container, inject_volume, mount_unless_there, inject_volume_mount, finish,
  inject_matched, inject_profiler,
}
use datakit_operator.Kubernetes.{Container, Volume}

pub reset_spec-Grows : (pod : Pod) → Grows [] pod (reset_spec pod)
unfolding reset_spec
reset_spec-Grows pod = record {
  containers = Joined-refl [] pod.spec.containers;
  inits = Extends-refl Container.name pod.spec.init_containers;
  volumes = Extends-refl Volume.name pod.spec.volumes;
  annotations = λ k v found. found;
  others = refl;
}

inject_volume-Grows : (pod : Pod) → Grows [] pod (inject_volume pod)
unfolding inject_volume
inject_volume-Grows pod =
    Grows-trans (add_volume-Grows _ pod) (Grows-trans (add_volume-Grows _ _) (add_volume-Grows _ _))

mount_unless_there-Grows :
    (name path : String) (pod : Pod) → Grows [] pod (mount_unless_there name path pod)
unfolding mount_unless_there
mount_unless_there-Grows name path pod =
    if-cases (Grows [] pod) (is_some (find_volume_mount_path path pod)) pod
      (add_volume_mount (plain_mount name path) pod) (Grows-refl [] pod)
      (add_volume_mount-Grows (plain_mount name path) pod)

inject_volume_mount-Grows : (pod : Pod) → Grows [] pod (inject_volume_mount pod)
unfolding inject_volume_mount
inject_volume_mount-Grows pod =
    Grows-trans (add_volume_mount-Grows _ pod)
      (Grows-trans (mount_unless_there-Grows _ _ _) (mount_unless_there-Grows _ _ _))

finish-Grows :
    (s : Setting) (rule : ProfilerRule) (image : String) (pod : Pod)
    (o : Option ResourceRequirements)
    → GrowsResult (profiler_container_name ∷ []) pod (finish s rule image pod o)
unfolding profiler_container
finish-Grows s rule image pod none = tt
finish-Grows s rule image pod (some resources) =
    let c : Container =
      profiler_container image (pull_policy rule.rule.image_pull_policy) resources
        (profiler_envs s rule pod) in
    Grows-trans (add_container-Grows c pod)
      (Grows-trans (inject_volume-Grows _) (inject_volume_mount-Grows _))

GrowsResult-after :
    (ks : List String) (pod new : Pod) (o : Option Pod)
    → Grows [] pod new
    → GrowsResult ks new o
    → GrowsResult ks pod o
GrowsResult-after ks pod new none g h = tt
GrowsResult-after ks pod new (some last) g h = Grows-trans g h

inject_matched-Grows :
    (s : Setting) (pod : Pod) (m : Matched)
    → GrowsResult (profiler_container_name ∷ []) pod (inject_matched s pod m)
inject_matched-Grows s pod none = Grows-refl _ pod
inject_matched-Grows s pod (some (rule, l, version)) =
    if-cases (GrowsResult (profiler_container_name ∷ []) pod) (image_from_rule rule l == "")
      (some pod) _ (Grows-refl _ pod)
      (GrowsResult-after _ pod (reset_spec pod) _ (reset_spec-Grows pod)
        (finish-Grows s rule _ (reset_spec pod) _))

pub inject_profiler-GrowsResult :
    (s : Setting) (rules : List (Option ProfilerRule)) (namespace : String) (pod : Pod)
    → GrowsResult (profiler_container_name ∷ []) pod (inject_profiler s rules namespace pod)
unfolding inject_profiler
inject_profiler-GrowsResult s rules namespace pod =
    inject_matched-Grows s pod (matching_rule rules (namespace_of namespace pod) pod)
