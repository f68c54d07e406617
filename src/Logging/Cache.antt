-- ===== src/Logging/Cache.antt =====
-- apis/logging/config: the cache of ClusterLoggingConfig objects and the worker that keeps it (cache.go,
-- crd_watcher.go). The mutex makes each operation one step.
pub mod Sync
pub mod Names
use datakit_operator.Common.{
  Option, none, some, Bool, true, false, not, ◌&&◌, List, [], ◌∷◌, String, ◌==◌, if◌then◌else◌,
  insert,
}
use datakit_operator.Common.Text.{split}
use datakit_operator.Config.Selector.{Compilers, LabelSelector, Labels}

pub record LoggingSelector : Type 0 where
  pub namespace_regex : String
  pub pod_regex : String
  pub pod_label_selector : String

-- `Spec` of a ClusterLoggingConfig; `configs` is what `json.Marshal` answers for the list of its
-- configurations, `none` for an error.
pub record LoggingSpec : Type 0 where
  pub selector : LoggingSelector
  pub pod_target_labels : List String
  pub configs : Option String

pub record CachedConfig : Type 0 where
  pub name : String
  pub pod_target_labels : List String
  pub configs : String
  pub namespace_regex : Option (String → Bool)
  pub pod_regex : Option (String → Bool)
  pub pod_label_selector : Option LabelSelector

abbrev pub Cache : Type 0
Cache = List CachedConfig

-- Compiled if it is given; what does not compile is left out, with an error in the log.
abbrev compiled {ℓ} : {A : Type ℓ} → (String → Option A) → String → Option A
compiled compile s = if s == "" then none else compile s

unfoldable pub cached_config : Compilers → String → LoggingSpec → String → CachedConfig
cached_config c name spec json = record {
  name = name;
  pod_target_labels = spec.pod_target_labels;
  configs = json;
  namespace_regex = compiled c.compile_regexp spec.selector.namespace_regex;
  pod_regex = compiled c.compile_regexp spec.selector.pod_regex;
  pod_label_selector = compiled c.parse_labels spec.selector.pod_label_selector;
}

-- The loop over the slice, and the `append` where no entry has the name.
unfoldable pub put : CachedConfig → Cache → Cache
put new [] = new ∷ []
put new (e ∷ es) = if e.name == new.name then new ∷ es else e ∷ put new es

abbrev pub put_marshalled : Compilers → String → LoggingSpec → Option String → Cache → Cache
put_marshalled c name spec none cache = cache
put_marshalled c name spec (some json) cache = put (cached_config c name spec json) cache

unfoldable pub add_or_update_config : Compilers → String → LoggingSpec → Cache → Cache
unfolding put cached_config
add_or_update_config c name spec cache = put_marshalled c name spec spec.configs cache

unfoldable pub remove_config : String → Cache → Cache
remove_config name [] = []
remove_config name (e ∷ es) = if e.name == name then es else e ∷ remove_config name es

pub add_tag : List String → Labels → Labels
add_tag (k ∷ v ∷ []) tags = insert k v tags
add_tag _ tags = tags

pub add_tags : List String → Labels → Labels
unfolding add_tag
add_tags [] tags = tags
add_tags (p ∷ ps) tags = add_tags ps (add_tag (split 61 p) tags)

-- `parseLabels`, with 44 for a comma and 61 for the sign of equality
unfoldable pub parse_labels : String → Labels
unfolding add_tags
parse_labels s = if s == "" then [] else add_tags (split 44 s) []

abbrev accepts {ℓ} : {A : Type ℓ} → (A → Bool) → Option A → Bool
accepts test none = true
accepts test (some a) = test a

unfoldable pub matches_selector : CachedConfig → String → String → String → Bool
unfolding parse_labels
matches_selector e namespace pod_name pod_labels =
    if not (accepts (λ r. r namespace) e.namespace_regex)
    then false
    else if not (accepts (λ r. r pod_name) e.pod_regex)
    then false
    else if pod_labels == ""
    then true
    else accepts (λ s. s.matches (parse_labels pod_labels)) e.pod_label_selector

-- `none` stands for the three empty results.
unfoldable pub find_matching_configs : Cache → String → String → String → Option CachedConfig
unfolding matches_selector
find_matching_configs [] namespace pod_name pod_labels = none
find_matching_configs (e ∷ es) namespace pod_name pod_labels =
    if matches_selector e namespace pod_name pod_labels
    then some e
    else find_matching_configs es namespace pod_name pod_labels

-- What the informer's store answers for a key.
pub data StoreReply : Type 0 where
  store_error missing other_object : StoreReply
  object : LoggingSpec → StoreReply

unfoldable pub process_reply : Compilers → String → StoreReply → Cache → Cache
unfolding remove_config add_or_update_config
process_reply c key store_error cache = cache
process_reply c key missing cache = remove_config key cache
process_reply c key other_object cache = cache
process_reply c key (object spec) cache = add_or_update_config c key spec cache

-- `processNextItem`, after the queue handed out the key
unfoldable pub process_item : Compilers → (String → StoreReply) → String → Cache → Cache
unfolding process_reply
process_item c store key cache = process_reply c key (store key) cache

-- `processQueue`: the keys in the order in which the queue hands them out
unfoldable pub process_queue : Compilers → (String → StoreReply) → List String → Cache → Cache
unfolding process_item
process_queue c store [] cache = cache
process_queue c store (key ∷ keys) cache =
    process_queue c store keys (process_item c store key cache)
