-- ===== src/EnvBuilder.antt =====
-- pkg/envbuilder: the environment variables of the configuration, with values such as
-- `{fieldRef:spec.nodeName}` that refer to the pod.
pub mod Names
pub mod Paths
pub mod Filtered
use datakit_operator.Common.{
  Option, none, some, Bool, true, false, ◌&&◌, ◌||◌, List, [], ◌∷◌, map, String, ◌==◌,
  if◌then◌else◌, is_some, lookup, any,
}
use datakit_operator.Common.Text.{contains}
use datakit_operator.Kubernetes.{EnvVar, EnvVarSource, ResourceFieldSelector, Container, plain_env}
use datakit_operator.EnvBuilder.Paths.{
  convert_field_ref_path, convert_resource_field_ref_path, convert_secret_key_ref,
}

abbrev empty_source : EnvVarSource
empty_source = record {
  field_ref = none;
  resource_field_ref = none;
  secret_key_ref = none;
  config_map_key_ref = none;
}

abbrev divisor_of : String → String
divisor_of path =
    if contains path "cpu" then "1m" else if contains path "memory" then "1Mi" else "0"

secret_source : Option (String × String) → Option EnvVarSource
secret_source none = none
secret_source (some (name, key)) =
    some (record empty_source { secret_key_ref = some (record { name = name; key = key }) })

-- `newEnvVarSource`; `is_config_map_key` is the Kubernetes library's `IsConfigMapKey` without errors.
unfoldable pub new_env_var_source : (String → Bool) → String → Option EnvVarSource
unfolding convert_field_ref_path convert_resource_field_ref_path convert_secret_key_ref
    secret_source
new_env_var_source is_config_map_key v =
    if convert_field_ref_path v == ""
    then (if convert_resource_field_ref_path v == ""
        then secret_source (convert_secret_key_ref is_config_map_key v)
        else some (record empty_source {
          resource_field_ref = some (record {
            container_name = "";
            resource = convert_resource_field_ref_path v;
            divisor = divisor_of (convert_resource_field_ref_path v);
          });
        }))
    else some (record empty_source { field_ref = some (convert_field_ref_path v) })

abbrev env_from : String → String → Option EnvVarSource → EnvVar
env_from key value none = plain_env key value
env_from key value (some source) = record { name = key; value = ""; value_from = some source }

unfoldable pub build_env : (String → Bool) → String → String → Bool → EnvVar
unfolding new_env_var_source
build_env is_config_map_key key value use_field_ref =
    if use_field_ref
    then env_from key value (new_env_var_source is_config_map_key value)
    else plain_env key value

unfoldable pub build_envs : (String → Bool) → List (String × String) → Bool → List EnvVar
unfolding build_env
build_envs is_config_map_key envs use_field_ref =
    map (λ e. build_env is_config_map_key e.0 e.1 use_field_ref) envs

-- A quantity map without the key, or nil, has no such resource.
unfoldable pub has_resource_in_container : String → Container → Bool
has_resource_in_container path c =
    if path == "limits.cpu"
    then is_some (lookup "cpu" c.resources.limits)
    else if path == "limits.memory"
    then is_some (lookup "memory" c.resources.limits)
    else if path == "requests.cpu"
    then is_some (lookup "cpu" c.resources.requests)
    else path == "requests.memory" && is_some (lookup "memory" c.resources.requests)

abbrev is_kept : Container → Option ResourceFieldSelector → Bool
is_kept first none = true
is_kept first (some r) = has_resource_in_container r.resource first

abbrev resource_ref : Option EnvVarSource → Option ResourceFieldSelector
resource_ref none = none
resource_ref (some source) = source.resource_field_ref

abbrev name_resource : String → Option ResourceFieldSelector → Option ResourceFieldSelector
name_resource name none = none
name_resource name (some r) = some (record r { container_name = name })

abbrev name_source : String → Option EnvVarSource → Option EnvVarSource
name_source name none = none
name_source name (some source) =
    some (record source { resource_field_ref = name_resource name source.resource_field_ref })

-- The loop, with the first container of the pod: the resources are taken from that container, and what it
-- does not have is left out.
unfoldable pub filter_envs : Container → List EnvVar → List EnvVar
unfolding has_resource_in_container
filter_envs first [] = []
filter_envs first (e ∷ es) =
    if is_kept first (resource_ref e.value_from)
    then record e { value_from = name_source first.name e.value_from } ∷ filter_envs first es
    else filter_envs first es

-- `FilterAndSetResourceFieldRefEnvVars`
unfoldable pub filter_and_set_resource_field_ref : List EnvVar → List Container → List EnvVar
unfolding filter_envs
filter_and_set_resource_field_ref envs [] = envs
filter_and_set_resource_field_ref envs (first ∷ rest) = filter_envs first envs
