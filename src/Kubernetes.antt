-- ===== src/Kubernetes.antt =====
-- The fields of the Kubernetes objects that the operator reads or writes (k8s.io/api/core/v1). A
-- pointer is an `Option`, a map the list of its entries, a quantity its canonical text.
use datakit_operator.Common.{ℕ, Option, none, Bool, true, false, List, [], String}
use datakit_operator.Common.Text.{String-discrete}
use native.Mathlib.Decide.{ℕ_discrete}
use datakit_operator.Common.Int.{ℤ}

pub record ResourceFieldSelector : Type 0 where
  pub container_name : String
  pub resource : String
  pub divisor : String

pub record SecretKeySelector : Type 0 where
  pub name : String
  pub key : String

-- `config_map_key_ref` stands for the sources that the operator never builds.
pub record EnvVarSource : Type 0 where
  pub field_ref : Option String
  pub resource_field_ref : Option ResourceFieldSelector
  pub secret_key_ref : Option SecretKeySelector
  pub config_map_key_ref : Option String

pub record EnvVar : Type 0 where
  pub name : String
  pub value : String
  pub value_from : Option EnvVarSource

pub record VolumeMount : Type 0 where
  pub name : String
  pub mount_path : String
  pub read_only : Bool
  pub sub_path : String
  pub sub_path_expr : String

pub data VolumeSource : Type 0 where
  empty_dir : VolumeSource
  host_path : (path type : String) → VolumeSource
  downward_api : (path field_path : String) → VolumeSource
  other_source : String → VolumeSource

pub record Volume : Type 0 where
  pub name : String
  pub source : VolumeSource

pub record ContainerPort : Type 0 where
  pub name : String
  pub container_port : ℤ
  pub protocol : String

pub record ResourceRequirements : Type 0 where
  pub requests : List (String × String)
  pub limits : List (String × String)

pub record SecurityContext : Type 0 where
  pub capabilities : List String
  pub run_as_non_root : Option Bool
  pub run_as_user : Option ℕ

pub record Container : Type 0 where
  pub name : String
  pub image : String
  pub command : List String
  pub args : List String
  pub working_dir : String
  pub ports : List ContainerPort
  pub env : List EnvVar
  pub resources : ResourceRequirements
  pub volume_mounts : List VolumeMount
  pub image_pull_policy : String
  pub security_context : Option SecurityContext

pub record PodSpec : Type 0 where
  pub volumes : List Volume
  pub init_containers : List Container
  pub containers : List Container
  pub restart_policy : String
  pub share_process_namespace : Option Bool
  pub security_context : Option SecurityContext

pub record Pod : Type 0 where
  pub name : String
  pub generate_name : String
  pub namespace : String
  pub labels : List (String × String)
  pub annotations : List (String × String)
  pub spec : PodSpec

-- A container of which only the name is given.
abbrev pub empty_container : String → Container
empty_container name = record {
  name = name;
  image = "";
  command = [];
  args = [];
  working_dir = "";
  ports = [];
  env = [];
  resources = record { requests = []; limits = [] };
  volume_mounts = [];
  image_pull_policy = "";
  security_context = none;
}

abbrev pub plain_env : String → String → EnvVar
plain_env name value = record { name = name; value = value; value_from = none }

abbrev pub plain_mount : String → String → VolumeMount
plain_mount name path = record {
  name = name;
  mount_path = path;
  read_only = false;
  sub_path = "";
  sub_path_expr = "";
}

abbrev pub is_empty_dir : VolumeSource → Bool
is_empty_dir empty_dir = true
is_empty_dir _ = false

-- `reflect.DeepEqual` decides equality.
pub EnvVar-discrete : Discrete EnvVar
EnvVar-discrete = hlevel String-discrete

pub VolumeMount-discrete : Discrete VolumeMount
VolumeMount-discrete = hlevel String-discrete

ℤ-discrete : Discrete ℤ
ℤ-discrete = hlevel ℕ_discrete

pub Container-discrete : Discrete Container
Container-discrete = hlevel (String-discrete, ℕ_discrete, ℤ-discrete, EnvVar-discrete)

pub Pod-discrete : Discrete Pod
Pod-discrete = hlevel (String-discrete, ℕ_discrete, Container-discrete)
