-- ===== src/Injector/Logfwd/Again.antt =====
-- The whole injection of logfwd: what it makes of a pod, and that a second one changes nothing.
use datakit_operator.Common.{
  Option, none, some, true, false, List, [], ◌∷◌, ◌++◌, map, String, ◌≡◌, refl, sym, ap, ◌∙◌, inl,
  inr, Bool-cases, if-cases, All,
}
use mathlib.Core.Path.{subst}
use datakit_operator.Kubernetes.{
  EnvVar, Volume, Container, Pod, ResourceRequirements, empty_dir, plain_mount,
}
use datakit_operator.Manager.{
  contains_name, add_named, add_container, contains_container, add_volume, add_volume_mount,
}
use datakit_operator.Config.Resource.{pull_policy}
use datakit_operator.Config.Rules.{LogfwdRule}
use datakit_operator.Injector.Setting.{Setting}
use datakit_operator.Injector.Added.{
  bare, bare_containers, add_volume-bare, add_volume_mount-bare, map-snoc, contains_container-bare,
  Settled, KeepsResult, Settled-from,
}
use datakit_operator.Injector.Logfwd.Sources.{Decoders}
use datakit_operator.Injector.Logfwd.{
  logfwd_container_name, matching_rule, logfwd_envs, logfwd_paths, VolumePair, get_volume_pairs,
  pod_info, add_empty_dirs, inject_volume, inject_volume_mount, read_only_mount, logfwd_container,
  finish, inject_matched, inject_logfwd,
}
use datakit_operator.Injector.Logfwd.Mounted.{
  HasVolume, Forwards, ForwardsResult, inject_volume-volumes, mounts-added,
}

dirs-bare :
    (pairs : List VolumePair) (pod : Pod)
    → bare_containers (add_empty_dirs pairs pod) ≡ bare_containers pod
unfolding add_empty_dirs
dirs-bare [] pod = refl
dirs-bare ((name, path) ∷ pairs) pod =
    let v : Volume = record { name = name; source = empty_dir } in
    dirs-bare pairs (add_volume v pod) ∙ add_volume-bare v pod

mounts-bare :
    (pairs : List VolumePair) (pod : Pod)
    → bare_containers (inject_volume_mount pairs pod) ≡ bare_containers pod
unfolding inject_volume_mount
mounts-bare [] pod = refl
mounts-bare ((name, path) ∷ pairs) pod =
    mounts-bare pairs (add_volume_mount (plain_mount name path) pod)
    ∙ add_volume_mount-bare (plain_mount name path) pod

-- The pod with its volumes and mounts, before the container is added.
abbrev prepared : List VolumePair → Pod → Pod
prepared pairs pod = inject_volume_mount pairs (inject_volume pairs pod)

prepared-bare :
    (pairs : List VolumePair) (pod : Pod)
    → bare_containers (prepared pairs pod) ≡ bare_containers pod
unfolding inject_volume
prepared-bare pairs pod =
    mounts-bare pairs (add_volume pod_info (add_empty_dirs pairs pod))
    ∙ add_volume-bare pod_info (add_empty_dirs pairs pod)
    ∙ dirs-bare pairs pod

mounts-volumes :
    (pairs : List VolumePair) (pod : Pod)
    → (inject_volume_mount pairs pod).spec.volumes ≡ pod.spec.volumes
unfolding inject_volume_mount add_volume_mount
mounts-volumes [] pod = refl
mounts-volumes ((name, path) ∷ pairs) pod =
    mounts-volumes pairs (add_volume_mount (plain_mount name path) pod)

-- A container whose name is new comes last, and the volumes stay.
added_last :
    (c : Container) (pod : Pod)
    → contains_container c.name pod ≡ false
    → ((add_container c pod).spec.containers ≡ pod.spec.containers ++ c ∷ [])
      × ((add_container c pod).spec.volumes ≡ pod.spec.volumes)
unfolding add_container add_named contains_container
added_last c pod h = (rw h refl, refl)

placed-Forwards :
    (c : Container) (pairs : List VolumePair) (pod : Pod)
    → c.name ≡ logfwd_container_name
    → c.volume_mounts
      ≡ map read_only_mount pairs ++ read_only_mount ("datakit-pod-info", "/etc/podinfo") ∷ []
    → contains_container c.name pod ≡ false
    → Forwards pod (add_container c (prepared pairs pod))
placed-Forwards c pairs pod named mounts absent =
    let ready : Pod = prepared pairs pod in
    let new : Pod = add_container c ready in
    let last =
      added_last c ready
        (contains_container-bare c.name ready pod (prepared-bare pairs pod) ∙ absent) in
    let same : new.spec.volumes ≡ (inject_volume pairs pod).spec.volumes =
      last.1 ∙ mounts-volumes pairs (inject_volume pairs pod) in
    record {
      others = ready.spec.containers;
      added = c;
      pairs = pairs;
      containers = last.0;
      kept = prepared-bare pairs pod;
      named = named;
      mounts = mounts;
      volumes = subst (All (λ m. HasVolume new m.name)) (sym mounts) (
          subst
            (λ vs.
              All (λ m. contains_name Volume.name m.name vs ≡ true)
                (map read_only_mount pairs
                  ++ read_only_mount ("datakit-pod-info", "/etc/podinfo") ∷ []))
            (sym same) (inject_volume-volumes pairs pod));
      shared = mounts-added pairs (inject_volume pairs pod);
    }

finish-Forwards :
    (rule : LogfwdRule) (envs : List EnvVar) (pairs : List VolumePair) (pod : Pod)
    (o : Option ResourceRequirements)
    → contains_container logfwd_container_name pod ≡ false
    → ForwardsResult pod (finish rule envs pairs pod o)
unfolding logfwd_container
finish-Forwards rule envs pairs pod none absent = tt
finish-Forwards rule envs pairs pod (some resources) absent =
    let policy : String = pull_policy rule.rule.image_pull_policy in
    inr (
      placed-Forwards (logfwd_container rule.rule.image policy resources envs pairs) pairs pod refl
        refl absent)

inject_matched-Forwards :
    (s : Setting) (d : Decoders) (pod : Pod) (o : Option LogfwdRule)
    → contains_container logfwd_container_name pod ≡ false
    → ForwardsResult pod (inject_matched s d pod o)
inject_matched-Forwards s d pod none absent = inl refl
inject_matched-Forwards s d pod (some rule) absent =
    finish-Forwards rule (logfwd_envs s d rule pod)
      (get_volume_pairs 0 pod (logfwd_paths d rule pod)) pod _ absent

matching_rule-present :
    (rules : List (Option LogfwdRule)) (pod : Pod)
    → contains_container logfwd_container_name pod ≡ true
    → matching_rule rules pod ≡ none
unfolding matching_rule
matching_rule-present rules pod h = rw h (if-cases (λ r. r ≡ none) _ none none refl refl)

KeepsResult-Forwards :
    (pod : Pod) (o : Option Pod) → ForwardsResult pod o → KeepsResult logfwd_container_name pod o
KeepsResult-Forwards pod none h = tt
KeepsResult-Forwards pod (some new) (inl same) = inl same
KeepsResult-Forwards pod (some new) (inr f) = inr (
  f.added,
  f.named,
  ap (map bare) f.containers
      ∙ map-snoc f.others f.added
      ∙ ap (λ cs. cs ++ bare f.added ∷ []) f.kept,
)

module _ (s : Setting) (d : Decoders) (rules : List (Option LogfwdRule)) where
  present-settled :
      (pod : Pod)
      → contains_container logfwd_container_name pod ≡ true
      → inject_logfwd s d rules pod ≡ some pod
  unfolding inject_logfwd
  present-settled pod h = rw (matching_rule-present rules pod h) refl

  -- The injection of logfwd, where it does not panic, leaves the pod as it was; or it puts one
  -- container, named datakit-logfwd, behind the containers of the pod, which stay in their
  -- order and, but for their mounts, as they were. The new container mounts pairs of a volume
  -- and a path, and datakit-pod-info; each volume that it mounts is a volume of the pod, and
  -- each volume of a pair is mounted by every other container.
  pub inject_logfwd-ForwardsResult : (pod : Pod) → ForwardsResult pod (inject_logfwd s d rules pod)
  unfolding inject_logfwd
  inject_logfwd-ForwardsResult pod =
      elim (Bool-cases (contains_container logfwd_container_name pod)) [
        | inl there ↦ rw (matching_rule-present rules pod there) (inl refl)
        | inr absent ↦ inject_matched-Forwards s d pod (matching_rule rules pod) absent
      ]

  -- A second injection changes nothing.
  pub inject_logfwd-Settled :
      (pod : Pod) → Settled (inject_logfwd s d rules) (inject_logfwd s d rules pod)
  inject_logfwd-Settled pod =
      Settled-from logfwd_container_name (inject_logfwd s d rules) present-settled pod
        (inject_logfwd s d rules pod) refl
        (KeepsResult-Forwards pod (inject_logfwd s d rules pod) (inject_logfwd-ForwardsResult pod))
