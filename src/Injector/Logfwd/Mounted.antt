-- ===== src/Injector/Logfwd/Mounted.antt =====
-- What the injection of logfwd adds to a pod and what it leaves, and that a second one changes nothing.
use datakit_operator.Common.{
  Option, none, some, true, List, [], ◌∷◌, ◌++◌, map, String, ◌≡◌, refl, ◌⊎◌, if-cases, All,
  All-append,
}
use datakit_operator.Kubernetes.{VolumeMount, Volume, Container, Pod, empty_dir, plain_mount}
use datakit_operator.Manager.{
  contains_name, add_named, add_volume, add_volume_mount, add_volume_mount_to,
}
use datakit_operator.Manager.Named.{add_named-contains, contains_name-append}
use datakit_operator.Injector.Added.{bare, bare_containers}
use datakit_operator.Injector.Logfwd.{
  logfwd_container_name, VolumePair, pod_info, add_empty_dirs, inject_volume, inject_volume_mount,
  read_only_mount,
}

-- The pod has a volume of the name.
abbrev pub HasVolume : Pod → String → Type 0
HasVolume pod name = contains_name Volume.name name pod.spec.volumes ≡ true

-- The containers of the pod all mount a volume.
abbrev pub Mount : String → List Container → Type 0
Mount name cs = All (λ c. contains_name VolumeMount.name name c.volume_mounts ≡ true) cs

-- The pod has one more container behind the others, which are as they were but for their mounts. It mounts
-- volumes of the pod, and all but the last of them are mounted by the others too.
pub record Forwards (pod new : Pod) : Type 0 where
  pub others : List Container
  pub added : Container
  pub pairs : List VolumePair
  pub containers : new.spec.containers ≡ others ++ added ∷ []
  pub kept : map bare others ≡ bare_containers pod
  pub named : added.name ≡ logfwd_container_name
  pub mounts :
      added.volume_mounts
      ≡ map read_only_mount pairs ++ read_only_mount ("datakit-pod-info", "/etc/podinfo") ∷ []
  pub volumes : All (λ m. HasVolume new m.name) added.volume_mounts
  pub shared : All (λ pair. Mount pair.0 others) pairs

abbrev pub ForwardsResult : Pod → Option Pod → Type 0
ForwardsResult pod none = Unit
ForwardsResult pod (some new) = (new ≡ pod) ⊎ Forwards pod new

module _ {A : Type 0} (name_of : A → String) where
  contains-add_named :
      (k : String) (x : A) (xs : List A)
      → contains_name name_of k xs ≡ true
      → contains_name name_of k (add_named name_of x xs) ≡ true
  unfolding add_named
  contains-add_named k x xs h =
      if-cases (λ l. contains_name name_of k l ≡ true) (contains_name name_of (name_of x) xs) xs
        (xs ++ x ∷ []) h (rw (contains_name-append name_of k xs (x ∷ []), h) refl)

HasVolume-kept :
    (k : String) (v : Volume) (pod : Pod) → HasVolume pod k → HasVolume (add_volume v pod) k
unfolding add_volume
HasVolume-kept k v pod h = contains-add_named Volume.name k v pod.spec.volumes h

HasVolume-added : (v : Volume) (pod : Pod) → HasVolume (add_volume v pod) v.name
unfolding add_volume
HasVolume-added v pod = add_named-contains Volume.name v pod.spec.volumes

dirs-kept :
    (k : String) (pairs : List VolumePair) (pod : Pod)
    → HasVolume pod k
    → HasVolume (add_empty_dirs pairs pod) k
unfolding add_empty_dirs
dirs-kept k [] pod h = h
dirs-kept k ((name, path) ∷ pairs) pod h =
    dirs-kept k pairs (add_volume (record { name = name; source = empty_dir }) pod)
      (HasVolume-kept k (record { name = name; source = empty_dir }) pod h)

-- Every volume of a pair is in the pod.
dirs-added :
    (pairs : List VolumePair) (pod : Pod)
    → All (λ pair. HasVolume (add_empty_dirs pairs pod) pair.0) pairs
unfolding add_empty_dirs
dirs-added [] pod = tt
dirs-added ((name, path) ∷ pairs) pod =
    let v : Volume = record { name = name; source = empty_dir } in
    (
      dirs-kept name pairs (add_volume v pod) (HasVolume-added v pod),
      dirs-added pairs (add_volume v pod),
    )

mounts_volumes :
    (new : Pod) (pairs : List VolumePair)
    → All (λ pair. HasVolume new pair.0) pairs
    → All (λ m. HasVolume new m.name) (map read_only_mount pairs)
mounts_volumes new [] h = tt
mounts_volumes new ((name, path) ∷ pairs) (v, h) = (v, mounts_volumes new pairs h)

All-HasVolume :
    (new : Pod) (pod : Pod) (pairs : List VolumePair)
    → ((k : String) → HasVolume pod k → HasVolume new k)
    → All (λ pair. HasVolume pod pair.0) pairs
    → All (λ pair. HasVolume new pair.0) pairs
All-HasVolume new pod [] f h = tt
All-HasVolume new pod (pair ∷ pairs) f (v, h) = (f pair.0 v, All-HasVolume new pod pairs f h)

pub inject_volume-volumes :
    (pairs : List VolumePair) (pod : Pod)
    → All
        (λ m. HasVolume (inject_volume pairs pod) m.name)
        (map read_only_mount pairs ++ read_only_mount ("datakit-pod-info", "/etc/podinfo") ∷ [])
unfolding inject_volume
inject_volume-volumes pairs pod =
    let dirs : Pod = add_empty_dirs pairs pod in
    let new : Pod = add_volume pod_info dirs in
    All-append (λ m. HasVolume new m.name) (map read_only_mount pairs)
      (read_only_mount ("datakit-pod-info", "/etc/podinfo") ∷ [])
      (mounts_volumes new pairs (
        All-HasVolume new dirs pairs (λ k h. HasVolume-kept k pod_info dirs h)
          (dirs-added pairs pod)))
      (HasVolume-added pod_info dirs, tt)

Mount-kept :
    (k : String) (m : VolumeMount) (cs : List Container)
    → Mount k cs
    → Mount k (map (add_volume_mount_to m) cs)
unfolding add_volume_mount_to
Mount-kept k m [] h = tt
Mount-kept k m (c ∷ cs) (here, h) =
    (contains-add_named VolumeMount.name k m c.volume_mounts here, Mount-kept k m cs h)

Mount-added :
    (m : VolumeMount) (cs : List Container) → Mount m.name (map (add_volume_mount_to m) cs)
unfolding add_volume_mount_to
Mount-added m [] = tt
Mount-added m (c ∷ cs) = (add_named-contains VolumeMount.name m c.volume_mounts, Mount-added m cs)

mounts-kept :
    (k : String) (pairs : List VolumePair) (pod : Pod)
    → Mount k pod.spec.containers
    → Mount k (inject_volume_mount pairs pod).spec.containers
unfolding inject_volume_mount add_volume_mount
mounts-kept k [] pod h = h
mounts-kept k ((name, path) ∷ pairs) pod h =
    mounts-kept k pairs (add_volume_mount (plain_mount name path) pod)
      (Mount-kept k (plain_mount name path) pod.spec.containers h)

pub mounts-added :
    (pairs : List VolumePair) (pod : Pod)
    → All (λ pair. Mount pair.0 (inject_volume_mount pairs pod).spec.containers) pairs
unfolding inject_volume_mount add_volume_mount
mounts-added [] pod = tt
mounts-added ((name, path) ∷ pairs) pod =
    let m : VolumeMount = plain_mount name path in
    (
      mounts-kept name pairs (add_volume_mount m pod) (Mount-added m pod.spec.containers),
      mounts-added pairs (add_volume_mount m pod),
    )
