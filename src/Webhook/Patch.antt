-- ===== src/Webhook/Patch.antt =====
-- apis/webhook/pod_patch.go: the JSON patch from the pod that was sent to the pod after injection.
-- A path is the list of its reference tokens, so an array index is a number and a key stands
-- there before escapeJSONPointer writes it as text.
use datakit_operator.Common.{
  ℕ, suc, ◌+◌, ◌<◌, Option, none, some, Bool, true, false, not, ◌&&◌, ◌||◌, List, [], ◌∷◌, ◌++◌,
  map, String, ◌==◌, if◌then◌else◌, ltb, length, lookup, is_some,
}
use datakit_operator.Common.Text.{◌⁀◌, sort_strings}
use datakit_operator.Kubernetes.{
  EnvVar, EnvVar-discrete, VolumeMount, Volume, Container, PodSpec, Pod,
}
use datakit_operator.Manager.{contains_name}
use mathlib.Core.Option
use mathlib.Core.Bool.{decide}
pub mod Apply
pub mod Unchanged
pub mod Escape

pub data Token : Type 0 where
  field : String → Token
  index : ℕ → Token
  end_of_array : Token

abbrev pub Pointer : Type 0
Pointer = List Token

-- The values that the operator puts into a patch.
pub data Value : Type 0 where
  text : String → Value
  flag : Bool → Value
  texts : List (String × String) → Value
  env_var : EnvVar → Value
  env_vars : List EnvVar → Value
  mount : VolumeMount → Value
  mounts : List VolumeMount → Value
  volume : Volume → Value
  volumes : List Volume → Value
  container : Container → Value
  containers : List Container → Value

pub data Operation : Type 0 where
  add replace : Operation

pub record JsonPatchOperation : Type 0 where
  pub operation : Operation
  pub path : Pointer
  pub value : Value

abbrev pub Patches : Type 0
Patches = List JsonPatchOperation

unfoldable pub add_patch : Pointer → Value → JsonPatchOperation
add_patch path value = record { operation = add; path = path; value = value }

unfoldable pub replace_patch : Pointer → Value → JsonPatchOperation
replace_patch path value = record { operation = replace; path = path; value = value }

module _ {ℓ} {A : Type ℓ} (wrap : A → Value) (wrap_all : List A → Value)
    (name_of : A → String) where
  abbrev append_path : Pointer → Pointer
  append_path base = base ++ end_of_array ∷ []

  pub named_additions : Pointer → List A → List A → Patches
  unfolding add_patch contains_name
  named_additions base old [] = []
  named_additions base old (x ∷ xs) =
      if contains_name name_of (name_of x) old
      then named_additions base old xs
      else add_patch (append_path base) (wrap x) ∷ named_additions base old xs

  unfoldable pub build_named_append_patch : Pointer → List A → List A → Patches
  unfolding named_additions add_patch
  build_named_append_patch base old [] = []
  build_named_append_patch base [] (x ∷ xs) = add_patch base (wrap_all (x ∷ xs)) ∷ []
  build_named_append_patch base (y ∷ ys) (x ∷ xs) = named_additions base (y ∷ ys) (x ∷ xs)

-- `reflect.DeepEqual` on two variables
unfoldable pub same_env : EnvVar → EnvVar → Bool
same_env a b = decide (EnvVar-discrete a b)

env_additions : Pointer → List EnvVar → Patches
unfolding add_patch
env_additions base [] = []
env_additions base (e ∷ es) =
    add_patch (base ++ end_of_array ∷ []) (env_var e) ∷ env_additions base es

replace_env : Pointer → ℕ → EnvVar → EnvVar → Patches → Patches
unfolding same_env replace_patch
replace_env base i old new rest =
    if same_env old new then rest else replace_patch (base ++ index i ∷ []) (env_var new) ∷ rest

-- The loops over both lists, from index `i`; `none` where two names differ, or old items are left.
env_changes : Pointer → ℕ → List EnvVar → List EnvVar → Option Patches
unfolding env_additions replace_env
env_changes base i [] news = some (env_additions base news)
env_changes base i (o ∷ olds) [] = none
env_changes base i (o ∷ olds) (n ∷ news) =
    let rest = env_changes base (suc i) olds news in
    if o.name == n.name then Option.map (replace_env base i o n) rest else none

replace_whole : Pointer → List EnvVar → Option Patches → Patches
unfolding replace_patch
replace_whole base new none = replace_patch base (env_vars new) ∷ []
replace_whole base new (some patches) = patches

unfoldable pub build_env_patch : Pointer → List EnvVar → List EnvVar → Patches
unfolding env_changes replace_whole add_patch replace_patch
build_env_patch base old [] = []
build_env_patch base [] (n ∷ news) = add_patch base (env_vars (n ∷ news)) ∷ []
build_env_patch base (o ∷ olds) (n ∷ news) =
    if ltb (length (n ∷ news)) (length (o ∷ olds))
    then replace_patch base (env_vars (n ∷ news)) ∷ []
    else replace_whole base (n ∷ news) (env_changes base 0 (o ∷ olds) (n ∷ news))

abbrev pub annotations_path : Pointer
annotations_path = field "metadata" ∷ field "annotations" ∷ []

abbrev pub value_or_empty : Option String → String
value_or_empty none = ""
value_or_empty (some v) = v

pub annotation_change : String → Option String → String → Patches → Patches
unfolding add_patch replace_patch
annotation_change key none value rest =
    add_patch (annotations_path ++ field key ∷ []) (text value) ∷ rest
annotation_change key (some old) value rest =
    if old == value
    then rest
    else replace_patch (annotations_path ++ field key ∷ []) (text value) ∷ rest

pub annotation_changes : List (String × String) → List (String × String) → List String → Patches
unfolding annotation_change
annotation_changes old new [] = []
annotation_changes old new (key ∷ keys) =
    annotation_change key (lookup key old) (value_or_empty (lookup key new))
      (annotation_changes old new keys)

unfoldable pub build_annotation_patch : List (String × String) → List (String × String) → Patches
unfolding annotation_changes add_patch
build_annotation_patch old [] = []
build_annotation_patch [] (n ∷ news) = add_patch annotations_path (texts (n ∷ news)) ∷ []
build_annotation_patch (o ∷ olds) (n ∷ news) =
    annotation_changes (o ∷ olds) (n ∷ news) (sort_strings (map (λ e. e.0) (n ∷ news)))

-- `newByName[name]`: the last container of that name.
unfoldable pub last_named : String → List Container → Option Container
last_named name [] = none
last_named name (c ∷ cs) =
    let rest = last_named name cs in
    if is_some rest then rest else if c.name == name then some c else none

abbrev containers_path : Pointer
containers_path = field "spec" ∷ field "containers" ∷ []

container_fields : ℕ → Container → Option Container → Patches
unfolding build_env_patch build_named_append_patch
container_fields i old none = []
container_fields i old (some new) =
    build_env_patch (containers_path ++ index i ∷ field "env" ∷ []) old.env new.env
    ++ build_named_append_patch mount mounts (λ m. m.name)
        (containers_path ++ index i ∷ field "volumeMounts" ∷ []) old.volume_mounts new.volume_mounts

-- The loop over the old containers, from index `i`.
container_field_patches : ℕ → List Container → List Container → Patches
unfolding container_fields last_named
container_field_patches i [] news = []
container_field_patches i (o ∷ olds) news =
    container_fields i o (last_named o.name news) ++ container_field_patches (suc i) olds news

unfoldable pub build_container_field_patch : List Container → List Container → Patches
unfolding container_field_patches
build_container_field_patch old new = container_field_patches 0 old new

unfoldable pub bool_ptr_equal : Option Bool → Option Bool → Bool
bool_ptr_equal none none = true
bool_ptr_equal (some true) (some b) = b
bool_ptr_equal (some false) (some b) = not b
bool_ptr_equal _ _ = false

share_process_namespace_patch : Option Bool → Option Bool → Patches
unfolding bool_ptr_equal add_patch replace_patch
share_process_namespace_patch old none = []
share_process_namespace_patch none (some b) =
    add_patch (field "spec" ∷ field "shareProcessNamespace" ∷ []) (flag b) ∷ []
share_process_namespace_patch (some a) (some b) =
    if bool_ptr_equal (some a) (some b)
    then []
    else replace_patch (field "spec" ∷ field "shareProcessNamespace" ∷ []) (flag b) ∷ []

restart_policy_patch : String → String → Patches
unfolding add_patch replace_patch
restart_policy_patch old new =
    if old == new || new == ""
    then []
    else (if old == "" then add_patch else replace_patch)
        (field "spec" ∷ field "restartPolicy" ∷ []) (text new)
      ∷ []

unfoldable pub build_pod_spec_patch : PodSpec → PodSpec → Patches
unfolding share_process_namespace_patch restart_policy_patch build_named_append_patch
    build_container_field_patch
build_pod_spec_patch old new =
    share_process_namespace_patch old.share_process_namespace new.share_process_namespace
    ++ restart_policy_patch old.restart_policy new.restart_policy
    ++ build_named_append_patch volume volumes (λ v. v.name) (field "spec" ∷ field "volumes" ∷ [])
        old.volumes new.volumes
    ++ build_named_append_patch container containers (λ c. c.name)
        (field "spec" ∷ field "initContainers" ∷ []) old.init_containers new.init_containers
    ++ build_named_append_patch container containers (λ c. c.name) containers_path old.containers
        new.containers
    ++ build_container_field_patch old.containers new.containers

unfoldable pub build_pod_injection_patch : Pod → Pod → Patches
unfolding build_annotation_patch build_pod_spec_patch
build_pod_injection_patch old new =
    build_annotation_patch old.annotations new.annotations ++ build_pod_spec_patch old.spec new.spec
