-- ===== src/Config/Legacy.antt =====
-- config/legacy.go: the configuration of the first version, turned into rules of the second.
pub mod Converted
use datakit_operator.Common.{
  Option, none, some, Bool, true, false, not, ◌&&◌, ◌||◌, List, [], ◌∷◌, String, ◌==◌,
  if◌then◌else◌, is_empty, is_some, lookup, map,
}
use datakit_operator.Config.Selector.{Selector}
use datakit_operator.Config.Resource.{ResourceRequirements}
use datakit_operator.Config.Rules.{
  MapItem, InjectRule, DdTraceRule, LogfwdRule, ProfilerRule, items,
}

-- A namespace or a label selector, with a language that the conversion does not read.
pub record Enabled : Type 0 where
  pub target : String
  pub language : String

pub record DeprecatedInjectRule : Type 0 where
  pub enabled_namespaces : List Enabled
  pub enabled_label_selectors : List Enabled
  pub images : List (String × String)
  pub environments : Option (List MapItem)
  pub resources : ResourceRequirements

pub record DeprecatedInjectConfig : Type 0 where
  pub ddtrace : DeprecatedInjectRule
  pub logfwd : DeprecatedInjectRule
  pub profiler : DeprecatedInjectRule

unfoldable pub targets : List Enabled → List String
targets [] = []
targets (e ∷ es) = if e.target == "" then targets es else e.target ∷ targets es

-- `m[key]`, with the empty text for a missing key
unfoldable pub image_at : String → List (String × String) → String
image_at key images = elim (lookup key images) [ none ↦ "" | some v ↦ v ]

abbrev pub select : List String → List String → Selector
select namespaces labels = record {
  namespaces = namespaces;
  labels = labels;
  namespace_selectors = [];
  label_selectors = [];
}

unfoldable pub converted_rule : DeprecatedInjectRule → String → Selector → InjectRule
unfolding image_at
converted_rule d image_key selector = record {
  name = "Used InjectV1 Config";
  selector = selector;
  image = image_at image_key d.images;
  image_pull_policy = "";
  environments = d.environments;
  resources = d.resources;
  envs = [];
}

-- `none` for the result `false`.
unfoldable pub convert_deprecated_inject_rule : DeprecatedInjectRule → String → Option InjectRule
unfolding targets converted_rule image_at
convert_deprecated_inject_rule d image_key =
    let namespaces = targets d.enabled_namespaces in
    let labels = targets d.enabled_label_selectors in
    if is_empty namespaces && is_empty labels
    then (if not (image_at image_key d.images == "") || is_some d.environments
        then some (converted_rule d image_key (select (".*" ∷ []) []))
        else none)
    else some (converted_rule d image_key (select namespaces labels))

abbrev pub deprecated_ddtrace_java_image_key : String
deprecated_ddtrace_java_image_key = "java_agent_image"

abbrev pub deprecated_logfwd_image_key : String
deprecated_logfwd_image_key = "logfwd_image"

abbrev pub one_rule : {T : Type 0} → (InjectRule → T) → Option InjectRule → List (Option T)
one_rule make none = []
one_rule make (some r) = some (make r) ∷ []

unfoldable pub convert_deprecated_to_ddtrace_rules :
    DeprecatedInjectRule → List (Option DdTraceRule)
unfolding convert_deprecated_inject_rule
convert_deprecated_to_ddtrace_rules d =
    one_rule
      (λ r. record { rule = r; check_annotation = true; language = "java"; php_loader_flavor = "" })
      (convert_deprecated_inject_rule d deprecated_ddtrace_java_image_key)

unfoldable pub convert_deprecated_to_logfwd_rules : DeprecatedInjectRule → List (Option LogfwdRule)
unfolding convert_deprecated_inject_rule
convert_deprecated_to_logfwd_rules d =
    one_rule
      (λ r. record { rule = r; check_annotation = true; log_configs = ""; log_volume_paths = [] })
      (convert_deprecated_inject_rule d deprecated_logfwd_image_key)

unfoldable pub convert_deprecated_to_profiler_rules :
    DeprecatedInjectRule → List (Option ProfilerRule)
unfolding convert_deprecated_inject_rule
convert_deprecated_to_profiler_rules d =
    one_rule (λ r. record { rule = r; check_annotation = true; language = ""; images = d.images })
      (convert_deprecated_inject_rule d "")

unfoldable pub is_valid_deprecated_rule : DeprecatedInjectRule → Bool
is_valid_deprecated_rule d = not (is_empty d.images) || not (is_empty (items d.environments))
