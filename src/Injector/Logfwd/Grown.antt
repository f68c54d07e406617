-- ===== src/Injector/Logfwd/Grown.antt =====
-- The growth of a pod by the injection of logfwd.
use datakit_operator.Common.{Option, none, some, List, [], ◌∷◌}
use datakit_operator.Kubernetes.{EnvVar, Container, Pod, ResourceRequirements}
use datakit_operator.Config.Resource.{pull_policy}
use datakit_operator.Config.Rules.{LogfwdRule}
use datakit_operator.Injector.Setting.{Setting}
use datakit_operator.Injector.Grown.{Grows, GrowsResult, Grows-refl, Grows-trans}
use datakit_operator.Injector.Grown.Steps.{
  add_container-Grows, add_volume-Grows, add_volume_mount-Grows,
}
use datakit_operator.Injector.Logfwd.Sources.{Decoders}
use datakit_operator.Injector.Logfwd.{
  logfwd_container_name, matching_rule, logfwd_envs, logfwd_paths, VolumePair, get_volume_pairs,
  add_empty_dirs, inject_volume, inject_volume_mount, logfwd_container, finish, inject_matched,
  inject_logfwd,
}

dirs-Grows : (pairs : List VolumePair) (pod : Pod) → Grows [] pod (add_empty_dirs pairs pod)
unfolding add_empty_dirs
dirs-Grows [] pod = Grows-refl [] pod
dirs-Grows ((name, path) ∷ pairs) pod = Grows-trans (add_volume-Grows _ pod) (dirs-Grows pairs _)

inject_volume-Grows : (pairs : List VolumePair) (pod : Pod) → Grows [] pod (inject_volume pairs pod)
unfolding inject_volume
inject_volume-Grows pairs pod = Grows-trans (dirs-Grows pairs pod) (add_volume-Grows _ _)

mounts-Grows : (pairs : List VolumePair) (pod : Pod) → Grows [] pod (inject_volume_mount pairs pod)
unfolding inject_volume_mount
mounts-Grows [] pod = Grows-refl [] pod
mounts-Grows ((name, path) ∷ pairs) pod =
    Grows-trans (add_volume_mount-Grows _ pod) (mounts-Grows pairs _)

finish-Grows :
    (rule : LogfwdRule) (envs : List EnvVar) (pairs : List VolumePair) (pod : Pod)
    (o : Option ResourceRequirements)
    → GrowsResult (logfwd_container_name ∷ []) pod (finish rule envs pairs pod o)
unfolding logfwd_container
finish-Grows rule envs pairs pod none = tt
finish-Grows rule envs pairs pod (some resources) =
    let c : Container =
      logfwd_container rule.rule.image (pull_policy rule.rule.image_pull_policy) resources envs
        pairs in
    Grows-trans (inject_volume-Grows pairs pod)
      (Grows-trans (mounts-Grows pairs _) (add_container-Grows c _))

inject_matched-Grows :
    (s : Setting) (d : Decoders) (pod : Pod) (o : Option LogfwdRule)
    → GrowsResult (logfwd_container_name ∷ []) pod (inject_matched s d pod o)
inject_matched-Grows s d pod none = Grows-refl _ pod
inject_matched-Grows s d pod (some rule) =
    finish-Grows rule (logfwd_envs s d rule pod) (get_volume_pairs 0 pod (logfwd_paths d rule pod))
      pod _

pub inject_logfwd-GrowsResult :
    (s : Setting) (d : Decoders) (rules : List (Option LogfwdRule)) (pod : Pod)
    → GrowsResult (logfwd_container_name ∷ []) pod (inject_logfwd s d rules pod)
unfolding inject_logfwd
inject_logfwd-GrowsResult s d rules pod = inject_matched-Grows s d pod (matching_rule rules pod)
