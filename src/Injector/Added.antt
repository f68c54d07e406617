-- ===== src/Injector/Added.antt =====
-- Injectors that put one container behind those of a pod: what they leave as it was, and why a second
-- injection changes nothing. The laws are over the name of the container.
use datakit_operator.Common.{
  Option, none, some, true, false, List, [], ◌∷◌, ◌++◌, map, String, ◌≡◌, refl, sym, ap, ◌∙◌, ◌==◌,
  ◌⊎◌, inl, inr, if◌then◌else◌, if-cases, eq_refl,
}
use datakit_operator.Kubernetes.{Container, VolumeMount, Volume, Pod}
use datakit_operator.Manager.{
  contains_name, add_named, add_container, contains_container, add_volume, add_volume_mount,
  add_volume_mount_to,
}
use datakit_operator.Manager.Named.{contains_name-append}

-- A container but for its mounts.
abbrev pub bare : Container → Container
bare c = record c { volume_mounts = [] }

abbrev pub bare_containers : Pod → List Container
bare_containers pod = map bare pod.spec.containers

map-bare :
    (m : VolumeMount) (cs : List Container)
    → map bare (map (add_volume_mount_to m) cs) ≡ map bare cs
unfolding add_volume_mount_to
map-bare m [] = refl
map-bare m (c ∷ cs) = ap (◌∷◌ (bare c)) (map-bare m cs)

pub add_volume_mount-bare :
    (m : VolumeMount) (pod : Pod) → bare_containers (add_volume_mount m pod) ≡ bare_containers pod
unfolding add_volume_mount
add_volume_mount-bare m pod = map-bare m pod.spec.containers

pub add_volume-bare :
    (v : Volume) (pod : Pod) → bare_containers (add_volume v pod) ≡ bare_containers pod
unfolding add_volume
add_volume-bare v pod = refl

pub map-snoc :
    (cs : List Container) (c : Container) → map bare (cs ++ c ∷ []) ≡ map bare cs ++ bare c ∷ []
map-snoc [] c = refl
map-snoc (x ∷ cs) c = ap (◌∷◌ (bare x)) (map-snoc cs c)

pub add_container-bare :
    (c : Container) (pod : Pod)
    → contains_container c.name pod ≡ false
    → bare_containers (add_container c pod) ≡ bare_containers pod ++ bare c ∷ []
unfolding add_container add_named contains_container
add_container-bare c pod h = rw h (map-snoc pod.spec.containers c)

contains-bare :
    (k : String) (cs : List Container)
    → contains_name Container.name k (map bare cs) ≡ contains_name Container.name k cs
unfolding contains_name
contains-bare k [] = refl
contains-bare k (c ∷ cs) = ap (λ b. if c.name == k then true else b) (contains-bare k cs)

-- Pods that differ in mounts only have containers of the same names.
pub contains_container-bare :
    (k : String) (a b : Pod)
    → bare_containers a ≡ bare_containers b
    → contains_container k a ≡ contains_container k b
unfolding contains_container
contains_container-bare k a b e =
    sym (contains-bare k a.spec.containers)
    ∙ ap (contains_name Container.name k) e
    ∙ contains-bare k b.spec.containers

-- A pod is settled where the injection leaves it alone; a panic is no pod.
pub Settled : (Pod → Option Pod) → Option Pod → Type 0
Settled inject none = Unit
Settled inject (some new) = inject new ≡ some new

module _ (name : String) where
  -- The pod is as it was, or has one more container behind the others, which are as they were but for
  -- their mounts.
  abbrev pub Keeps : Pod → Pod → Type 0
  Keeps pod new =
      (new ≡ pod)
      ⊎ ((p : Container) × (p.name ≡ name)
          × (bare_containers new ≡ bare_containers pod ++ bare p ∷ []))

  abbrev pub KeepsResult : Pod → Option Pod → Type 0
  KeepsResult pod none = Unit
  KeepsResult pod (some new) = Keeps pod new

  pub has_added :
      (pod new : Pod) (p : Container)
      → p.name ≡ name
      → bare_containers new ≡ bare_containers pod ++ bare p ∷ []
      → contains_container name new ≡ true
  unfolding contains_container
  has_added pod new p e h =
      sym (contains-bare name new.spec.containers)
      ∙ ap (contains_name Container.name name) h
      ∙ contains_name-append Container.name name (bare_containers pod) (bare p ∷ [])
      ∙ ap
          (λ n.
            if contains_name Container.name name (bare_containers pod)
            then true
            else (if n == name then true else false))
          e
      ∙ rw eq_refl (
          if-cases (λ b. b ≡ true) (contains_name Container.name name (bare_containers pod)) true
            true refl refl)

  -- An injection that passes over the pods that have the container is settled by its own result.
  pub Settled-from :
      (inject : Pod → Option Pod)
      → ((p : Pod) → contains_container name p ≡ true → inject p ≡ some p)
      → (pod : Pod) (o : Option Pod) → inject pod ≡ o
      → KeepsResult pod o
      → Settled inject o
  unfolding Settled
  Settled-from inject present pod none e k = tt
  Settled-from inject present pod (some new) e (inl same) = ap inject same ∙ e
  Settled-from inject present pod (some new) e (inr (p, named, h)) =
      present new (has_added pod new p named h)
