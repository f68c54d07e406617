-- ===== src/Manager.antt =====
-- pkg/manager: adding containers, volumes, mounts and environment variables to a pod. A method that
-- mutates the pod returns the new pod.
pub mod Named
pub mod Envs
use datakit_operator.Common.{
  Option, none, some, Bool, true, false, ◌&&◌, List, [], ◌∷◌, ◌++◌, map, String, ◌==◌,
  if◌then◌else◌, any,
}
use datakit_operator.Kubernetes.{Container, Volume, VolumeMount, EnvVar, Pod, PodSpec, is_empty_dir}

-- The loop of every `Add…` and `Contains…`: some item has the name.
unfoldable pub contains_name {ℓ} : {A : Type ℓ} → (A → String) → String → List A → Bool
contains_name name_of name [] = false
contains_name name_of name (x ∷ xs) =
    if name_of x == name then true else contains_name name_of name xs

unfoldable pub add_named {ℓ} : {A : Type ℓ} → (A → String) → A → List A → List A
unfolding contains_name
add_named name_of new xs = if contains_name name_of (name_of new) xs then xs else xs ++ new ∷ []

abbrev pub with_containers : Pod → List Container → Pod
with_containers pod cs = record pod { spec = record (pod.spec) { containers = cs } }

abbrev pub with_init_containers : Pod → List Container → Pod
with_init_containers pod cs = record pod { spec = record (pod.spec) { init_containers = cs } }

abbrev pub with_volumes : Pod → List Volume → Pod
with_volumes pod vs = record pod { spec = record (pod.spec) { volumes = vs } }

unfoldable pub add_container : Container → Pod → Pod
unfolding add_named
add_container c pod = with_containers pod (add_named Container.name c pod.spec.containers)

unfoldable pub add_init_container : Container → Pod → Pod
unfolding add_named
add_init_container c pod =
    with_init_containers pod (add_named Container.name c pod.spec.init_containers)

unfoldable pub contains_container : String → Pod → Bool
unfolding contains_name
contains_container name pod = contains_name Container.name name pod.spec.containers

unfoldable pub contains_init_container : String → Pod → Bool
unfolding contains_name
contains_init_container name pod = contains_name Container.name name pod.spec.init_containers

unfoldable pub add_volume : Volume → Pod → Pod
unfolding add_named
add_volume v pod = with_volumes pod (add_named Volume.name v pod.spec.volumes)

empty_dir_named : String → List Volume → Bool
empty_dir_named name [] = false
empty_dir_named name (v ∷ vs) =
    if v.name == name then is_empty_dir v.source else empty_dir_named name vs

unfoldable pub is_empty_dir_volume : String → Pod → Bool
unfolding empty_dir_named
is_empty_dir_volume name pod = empty_dir_named name pod.spec.volumes

unfoldable pub add_volume_mount_to : VolumeMount → Container → Container
unfolding add_named
add_volume_mount_to m c = record c { volume_mounts = add_named VolumeMount.name m c.volume_mounts }

-- `AddVolumeMount`: to every application container
unfoldable pub add_volume_mount : VolumeMount → Pod → Pod
unfolding add_volume_mount_to
add_volume_mount m pod = with_containers pod (map (add_volume_mount_to m) pod.spec.containers)

abbrev mount_at : String → VolumeMount → Container → Container
mount_at name m c = if c.name == name then add_volume_mount_to m c else c

-- `AddVolumeMountToContainer`
unfoldable pub add_volume_mount_to_container : String → VolumeMount → Pod → Pod
unfolding add_volume_mount_to
add_volume_mount_to_container name m pod =
    with_containers pod (map (mount_at name m) pod.spec.containers)

-- `AddVolumeMountToInitContainer`
unfoldable pub add_volume_mount_to_init_container : String → VolumeMount → Pod → Pod
unfolding add_volume_mount_to
add_volume_mount_to_init_container name m pod =
    with_init_containers pod (map (mount_at name m) pod.spec.init_containers)

-- `ContainsVolumeMountInContainer`
unfoldable pub contains_volume_mount : String → Pod → Bool
contains_volume_mount name pod =
    any (λ c. any (λ m. m.name == name) c.volume_mounts) pod.spec.containers

mount_name_at : String → List VolumeMount → Option String
mount_name_at path [] = none
mount_name_at path (m ∷ ms) = if m.mount_path == path then some m.name else mount_name_at path ms

or_else : Option String → Option String → Option String
or_else none b = b
or_else (some a) b = some a

find_mount_path : String → List Container → Option String
unfolding mount_name_at or_else
find_mount_path path [] = none
find_mount_path path (c ∷ cs) =
    or_else (mount_name_at path c.volume_mounts) (find_mount_path path cs)

-- `FindVolumeMountPathInContainer`: the name of the first mount at the path
unfoldable pub find_volume_mount_path : String → Pod → Option String
unfolding find_mount_path
find_volume_mount_path path pod = find_mount_path path pod.spec.containers

abbrev pub Resolver : Type 0
Resolver = EnvVar → EnvVar → EnvVar

abbrev pub keep_existing : Resolver
keep_existing existing incoming = existing

abbrev pub replace_existing : Resolver
replace_existing existing incoming = incoming

abbrev resolve_with : Option Resolver → EnvVar → EnvVar → EnvVar
resolve_with none existing incoming = existing
resolve_with (some r) existing incoming = r existing incoming

unfoldable pub add_or_update_env : List EnvVar → EnvVar → Option Resolver → List EnvVar
add_or_update_env [] incoming r = incoming ∷ []
add_or_update_env (e ∷ es) incoming r =
    if e.name == incoming.name
    then resolve_with r e incoming ∷ es
    else e ∷ add_or_update_env es incoming r

unfoldable pub add_or_update_envs : List EnvVar → List EnvVar → Option Resolver → List EnvVar
unfolding add_or_update_env
add_or_update_envs envs [] r = envs
add_or_update_envs envs (e ∷ es) r = add_or_update_envs (add_or_update_env envs e r) es r
