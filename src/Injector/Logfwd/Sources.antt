-- ===== src/Injector/Logfwd/Sources.antt =====
-- apis/webhook/injector/logfwd.go: the paths that the two kinds of configuration name, and the mount paths of
-- apis/webhook/injector/utils.go.
use mathlib.Core.Option
use datakit_operator.Common.{
  Option, none, some, List, [], ◌∷◌, ◌++◌, String, ◌==◌, if◌then◌else◌, lookup,
}
use datakit_operator.Common.Text.{contains, before_char}
use datakit_operator.Common.FilePath.{clean, dir}
use datakit_operator.Kubernetes.{Pod}
use datakit_operator.Config.Rules.{LogfwdRule}
use datakit_operator.Injector.Utils.{unique}

-- With 42 for an asterisk: what stands before the first one is a path, of which the directory is taken.
unfoldable pub get_mount_path : String → String
unfolding contains before_char clean dir
get_mount_path path =
    if contains path "*"
    then (if before_char 42 path == "" then "." else clean (dir (before_char 42 path)))
    else clean path

unfoldable pub get_mount_paths : List String → List String
unfolding get_mount_path
get_mount_paths [] = []
get_mount_paths (p ∷ ps) =
    if get_mount_path p == "" then get_mount_paths ps else get_mount_path p ∷ get_mount_paths ps

-- The files of one entry of `loggings`.
pub record Logging : Type 0 where
  pub log_files : List String
  pub ignore : List String

abbrev pub LogfwdConfig : Type 0
LogfwdConfig = List Logging

-- `json.Compact` and the two uses of `json.Unmarshal`; the result `none` is an error, an item `none` is a null.
pub record Decoders : Type 0 where
  pub compact : String → Option String
  pub instances : String → Option (List (Option LogfwdConfig))
  pub log_configs : String → Option (List (Option String))

abbrev pub instances_annotation_key : String
instances_annotation_key = "admission.datakit/logfwd.instances"

logging_paths : List Logging → List String
unfolding get_mount_paths
logging_paths [] = []
logging_paths (l ∷ ls) =
    get_mount_paths l.log_files ++ (get_mount_paths l.ignore ++ logging_paths ls)

instances_paths : List (Option LogfwdConfig) → List String
unfolding logging_paths
instances_paths [] = []
instances_paths (none ∷ cs) = instances_paths cs
instances_paths (some loggings ∷ cs) = logging_paths loggings ++ instances_paths cs

log_configs_paths : List (Option String) → List String
unfolding get_mount_path
log_configs_paths [] = []
log_configs_paths (none ∷ cs) = log_configs_paths cs
log_configs_paths (some path ∷ cs) = get_mount_path path ∷ log_configs_paths cs

-- The text of a configuration and the paths in it.
abbrev pub Extracted : Type 0
Extracted = Option (String × List String)

abbrev with_paths : String → Option (List String) → Extracted
with_paths config none = none
with_paths config (some paths) = some (config, unique paths)

abbrev decoded : {A : Type 0} → (String → Option A) → (A → List String) → Option String → Extracted
decoded unmarshal paths none = none
decoded unmarshal paths (some config) = with_paths config (Option.map paths (unmarshal config))

abbrev instances_in : Decoders → Option String → Extracted
instances_in d none = none
instances_in d (some config) =
    if config == "" then some ("", []) else decoded d.instances instances_paths (d.compact config)

unfoldable pub extract_instances_config : Decoders → Pod → Extracted
unfolding instances_paths unique
extract_instances_config d pod = instances_in d (lookup instances_annotation_key pod.annotations)

unfoldable pub extract_log_configs_config : Decoders → LogfwdRule → Extracted
unfolding log_configs_paths unique
extract_log_configs_config d rule =
    if rule.log_configs == ""
    then none
    else decoded d.log_configs log_configs_paths (d.compact rule.log_configs)
