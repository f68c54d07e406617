-- ===== src/Tests/Pods.antt =====
-- The laws of pkg/manager and of the patches (apis/webhook/pod_patch.go) at one pod.
use datakit_operator.Common.{
  ◌≡◌, ◌≢◌, refl, sym, ap, Option, none, some, Bool, true, false, String, List, [], ◌∷◌, map,
  lookup,
}
use mathlib.Core.Bool.{false≢true}
use datakit_operator.Kubernetes.{
  EnvVar, VolumeMount, Container, Pod, plain_env, plain_mount, empty_container, empty_dir,
}
use datakit_operator.Manager.{replace_existing, add_or_update_envs, contains_name, add_named}
use datakit_operator.Manager.Named.{HasDistinctNames, add_named-Extends}
use datakit_operator.Manager.Envs.{
  find_env, last_env, find_env-add_or_update_envs, add_or_update_envs-HasDistinctNames,
}
use datakit_operator.Webhook.Patch.{
  Pointer, Value, field, mount, mounts, build_env_patch, build_named_append_patch,
  build_annotation_patch,
}
use datakit_operator.Webhook.Patch.Apply.{Annotations, apply_patches, patch_envs, patch_annotations}
use datakit_operator.Webhook.Patch.Apply.Envs.{build_env_patch-apply}
use datakit_operator.Webhook.Patch.Apply.Named.{build_named_append_patch-apply}
use datakit_operator.Webhook.Patch.Apply.Annotations.{build_annotation_patch-apply, over}
use datakit_operator.Webhook.Patch.Escape.{
  escape_json_pointer, unescape_json_pointer, unescape_json_pointer-escape_json_pointer,
}

abbrev old_envs : List EnvVar
old_envs = plain_env "HOST" "a" ∷ plain_env "PORT" "1" ∷ []

abbrev injected : List EnvVar
injected = plain_env "PORT" "2" ∷ plain_env "AGENT" "dk" ∷ []

abbrev new_envs : List EnvVar
new_envs = plain_env "HOST" "a" ∷ plain_env "PORT" "2" ∷ plain_env "AGENT" "dk" ∷ []

envs_updated : add_or_update_envs old_envs injected (some replace_existing) ≡ new_envs
unfolding add_or_update_envs
envs_updated = refl

find_env-add_or_update_envs_example :
    find_env "PORT" (add_or_update_envs old_envs injected (some replace_existing))
    ≡ last_env "PORT" injected (find_env "PORT" old_envs)
find_env-add_or_update_envs_example = find_env-add_or_update_envs "PORT" injected old_envs

old_distinct : HasDistinctNames (λ n. n) (map EnvVar.name old_envs)
unfolding contains_name
old_distinct = (refl, (refl, tt))

add_or_update_envs-HasDistinctNames_example :
    HasDistinctNames
      (λ n. n)
      (map EnvVar.name (add_or_update_envs old_envs injected (some replace_existing)))
add_or_update_envs-HasDistinctNames_example =
    add_or_update_envs-HasDistinctNames replace_existing injected old_envs (λ e i h. refl)
      old_distinct

abbrev env_path : Pointer
env_path = field "env" ∷ []

has_entries : List EnvVar → Bool
has_entries [] = false
has_entries (e ∷ es) = true

new_envs_given : new_envs ≢ []
unfolding has_entries
new_envs_given e = false≢true (sym (ap has_entries e))

build_env_patch-apply_example :
    patch_envs env_path (build_env_patch env_path old_envs new_envs) old_envs ≡ some new_envs
build_env_patch-apply_example = build_env_patch-apply env_path old_envs new_envs new_envs_given

abbrev as_mount : Value → Option VolumeMount
as_mount (mount m) = some m
as_mount _ = none

abbrev as_mounts : Value → Option (List VolumeMount)
as_mounts (mounts ms) = some ms
as_mounts _ = none

abbrev old_mounts : List VolumeMount
old_mounts = plain_mount "data" "/data" ∷ []

build_named_append_patch-apply_example :
    apply_patches as_mount as_mounts env_path
      (build_named_append_patch mount mounts VolumeMount.name env_path old_mounts
        (add_named VolumeMount.name (plain_mount "logs" "/logs") old_mounts))
      old_mounts
    ≡ some (add_named VolumeMount.name (plain_mount "logs" "/logs") old_mounts)
build_named_append_patch-apply_example =
    build_named_append_patch-apply mount mounts VolumeMount.name as_mount as_mounts (λ m. refl)
      (λ ms. refl) env_path old_mounts
      (add_named VolumeMount.name (plain_mount "logs" "/logs") old_mounts)
      (add_named-Extends VolumeMount.name (plain_mount "logs" "/logs") old_mounts)

abbrev old_annotations : Annotations
old_annotations = ("team", "x") ∷ ("port", "1") ∷ []

abbrev new_annotations : Annotations
new_annotations = ("port", "2") ∷ ("datakit/logs", "[]") ∷ []

build_annotation_patch-apply_example :
    (m : Annotations) × (patch_annotations
        (build_annotation_patch old_annotations new_annotations)
        old_annotations
      ≡ some m)
    × ((k : String) → lookup k m ≡ over (lookup k new_annotations) (lookup k old_annotations))
build_annotation_patch-apply_example = build_annotation_patch-apply old_annotations new_annotations

abbrev app : Container
app = record (empty_container "app") { env = old_envs; volume_mounts = old_mounts }

abbrev pub app_pod : Pod
app_pod = record {
  name = "p";
  generate_name = "p-";
  namespace = "ns";
  labels = ("app", "shop") ∷ [];
  annotations = ("admission.datakit/enabled", "false") ∷ [];
  spec = record {
    volumes = record { name = "data"; source = empty_dir } ∷ [];
    init_containers = [];
    containers = app ∷ empty_container "side" ∷ [];
    restart_policy = "Always";
    share_process_namespace = none;
    security_context = none;
  };
}

pub app_pod_distinct : HasDistinctNames Container.name app_pod.spec.containers
unfolding contains_name
app_pod_distinct = (refl, (refl, tt))

unescape_json_pointer-escape_json_pointer_example :
    unescape_json_pointer (escape_json_pointer "admission.datakit/~a") ≡ "admission.datakit/~a"
unescape_json_pointer-escape_json_pointer_example =
    unescape_json_pointer-escape_json_pointer "admission.datakit/~a"
