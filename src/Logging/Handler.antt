-- ===== src/Logging/Handler.antt =====
-- apis/logging/handle.go: the request for the configuration of a pod.
pub mod Served
use datakit_operator.Common.{
  Option, none, some, Bool, true, false, ◌||◌, List, [], String, ◌==◌, if◌then◌else◌, ℕ,
}
use datakit_operator.Logging.Cache.{CachedConfig, Cache, find_matching_configs}

pub record LoggingResponse : Type 0 where
  pub name : String
  pub pod_target_labels : List String
  pub configs : String
  pub error : String

-- The status of the reply and its body.
abbrev pub LoggingReply : Type 0
LoggingReply = ℕ × LoggingResponse

abbrev pub refuse : ℕ → String → LoggingReply
refuse status message =
    (status, record { name = ""; pod_target_labels = []; configs = ""; error = message })

unfoldable pub reply_with : Option CachedConfig → LoggingReply
reply_with none = refuse 404 "no matching config found"
reply_with (some e) = if e.configs == "" then refuse 404 "no matching config found" else (
  200,
  record {
    name = e.name;
    pod_target_labels = e.pod_target_labels;
    configs = e.configs;
    error = "";
  },
)

unfoldable pub handle_configs : Cache → String → String → String → LoggingReply
unfolding reply_with find_matching_configs
handle_configs cache namespace pod_name pod_labels =
    if namespace == "" || pod_name == ""
    then refuse 400 "namespace, pod_name parameters are required"
    else reply_with (find_matching_configs cache namespace pod_name pod_labels)
