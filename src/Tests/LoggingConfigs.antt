-- ===== src/Tests/LoggingConfigs.antt =====
-- The laws of apis/logging at a cache of one entry.
use datakit_operator.Common.{◌≡◌, refl, some, String, List, [], ◌∷◌, ◌==◌, if◌then◌else◌, any}
use datakit_operator.Common.Text.{split}
use datakit_operator.Manager.{contains_name}
use datakit_operator.Logging.Cache.{
  CachedConfig, Cache, LoggingSpec, StoreReply, missing, object, process_queue, cached_config,
}
use datakit_operator.Logging.Cache.Names.{find_cached, IsMap}
use datakit_operator.Logging.Cache.Sync.{desired, process_queue-desired}
use datakit_operator.Logging.Handler.{handle_configs}
use datakit_operator.Logging.Handler.Served.{Told, handle_configs-Told}
use datakit_operator.Tests.Rules.{few}

abbrev spec : LoggingSpec
spec = record {
  selector = record { namespace_regex = "shop"; pod_regex = ""; pod_label_selector = "app=web" };
  pod_target_labels = "app" ∷ [];
  configs = some "[{}]";
}

abbrev store : String → StoreReply
store key = if key == "web" then object spec else missing

abbrev stale : CachedConfig
stale = cached_config few "gone" spec "[]"

abbrev stale_cache : Cache
stale_cache = stale ∷ []

stale_cache-IsMap : IsMap stale_cache
unfolding contains_name
stale_cache-IsMap = (refl, tt)

abbrev keys : List String
keys = "web" ∷ "gone" ∷ []

process_queue-desired_example :
    IsMap (process_queue few store keys stale_cache)
    × ((k : String)
        → find_cached k (process_queue few store keys stale_cache) ≡ (
            if any (λ j. j == k) keys
            then desired few store k (find_cached k stale_cache)
            else find_cached k stale_cache))
process_queue-desired_example = process_queue-desired few store keys stale_cache stale_cache-IsMap

abbrev web_config : CachedConfig
web_config = cached_config few "web" spec "[{}]"

queue_result : process_queue few store keys stale_cache ≡ web_config ∷ []
unfolding process_queue
queue_result = refl

web_served : (handle_configs (web_config ∷ []) "shop" "p" "app=web").0 ≡ 200
unfolding handle_configs cached_config split
web_served = refl

handle_configs-Told_example :
    Told
      (web_config ∷ [])
      "shop"
      "p"
      "app=web"
      (handle_configs (web_config ∷ []) "shop" "p" "app=web")
handle_configs-Told_example = handle_configs-Told (web_config ∷ []) "shop" "p" "app=web" web_served
