-- ===== src/Injector/Grown/Steps.antt =====
-- The growth of a pod by the operations of pkg/manager.
use datakit_operator.Common.{List, [], ◌∷◌, ◌++◌, map, refl, inl, inr, Bool-cases}
use datakit_operator.Kubernetes.{VolumeMount, Volume, Container, Pod}
use datakit_operator.Manager.{
  contains_name, add_named, with_containers, add_container, add_init_container, add_volume,
  add_volume_mount, add_volume_mount_to,
}
use datakit_operator.Manager.Named.{Extends-refl, add_named-Extends}
use datakit_operator.Injector.Grown.{Kept, Kept-refl, InOrder, Joined, Joined-refl, Grows}

Joined-snoc : (c : Container) (cs : List Container) → Joined (c.name ∷ []) cs (cs ++ c ∷ [])
unfolding Joined InOrder
Joined-snoc c [] = inl (refl, tt)
Joined-snoc c (d ∷ cs) = (Kept-refl d, Joined-snoc c cs)

add_named-Joined :
    (c : Container) (cs : List Container) → Joined (c.name ∷ []) cs (add_named Container.name c cs)
unfolding add_named
add_named-Joined c cs = elim (Bool-cases (contains_name Container.name c.name cs)) [
  | inl old ↦ rw old (Joined-refl (c.name ∷ []) cs)
  | inr new ↦ rw new (Joined-snoc c cs)
]

pub add_container-Grows :
    (c : Container) (pod : Pod) → Grows (c.name ∷ []) pod (add_container c pod)
unfolding add_container
add_container-Grows c pod = record {
  containers = add_named-Joined c pod.spec.containers;
  inits = Extends-refl Container.name pod.spec.init_containers;
  volumes = Extends-refl Volume.name pod.spec.volumes;
  annotations = λ k v found. found;
  others = refl;
}

pub add_init_container-Grows : (c : Container) (pod : Pod) → Grows [] pod (add_init_container c pod)
unfolding add_init_container
add_init_container-Grows c pod = record {
  containers = Joined-refl [] pod.spec.containers;
  inits = add_named-Extends Container.name c pod.spec.init_containers;
  volumes = Extends-refl Volume.name pod.spec.volumes;
  annotations = λ k v found. found;
  others = refl;
}

pub add_volume-Grows : (v : Volume) (pod : Pod) → Grows [] pod (add_volume v pod)
unfolding add_volume
add_volume-Grows v pod = record {
  containers = Joined-refl [] pod.spec.containers;
  inits = Extends-refl Container.name pod.spec.init_containers;
  volumes = add_named-Extends Volume.name v pod.spec.volumes;
  annotations = λ k v found. found;
  others = refl;
}

pub with_containers-Grows :
    (pod : Pod) (cs : List Container)
    → Joined [] pod.spec.containers cs
    → Grows [] pod (with_containers pod cs)
with_containers-Grows pod cs h = record {
  containers = h;
  inits = Extends-refl Container.name pod.spec.init_containers;
  volumes = Extends-refl Volume.name pod.spec.volumes;
  annotations = λ k v found. found;
  others = refl;
}

pub map-Joined :
    (f : Container → Container) (cs : List Container)
    → ((c : Container) → Kept c (f c))
    → Joined [] cs (map f cs)
unfolding Joined InOrder
map-Joined f [] h = tt
map-Joined f (c ∷ cs) h = (h c, map-Joined f cs h)

-- A function that keeps each container, over all of them.
pub map-Grows :
    (f : Container → Container) (pod : Pod)
    → ((c : Container) → Kept c (f c))
    → Grows [] pod (with_containers pod (map f pod.spec.containers))
map-Grows f pod h = with_containers-Grows pod _ (map-Joined f pod.spec.containers h)

pub add_volume_mount_to-Kept : (m : VolumeMount) (c : Container) → Kept c (add_volume_mount_to m c)
unfolding add_volume_mount_to
add_volume_mount_to-Kept m c =
    (refl, add_named-Extends VolumeMount.name m c.volume_mounts, λ k e other h. h)

pub add_volume_mount-Grows : (m : VolumeMount) (pod : Pod) → Grows [] pod (add_volume_mount m pod)
unfolding add_volume_mount
add_volume_mount-Grows m pod = map-Grows (add_volume_mount_to m) pod (add_volume_mount_to-Kept m)
