-- ===== src/Config/Rules.antt =====
-- config/rules.go: the rules that choose the pods to inject into or to mutate.
pub mod Matching
use datakit_operator.Common.{
  Option, none, some, Bool, true, false, not, ◌&&◌, ◌||◌, List, [], ◌∷◌, ◌++◌, map, String, ◌==◌,
  if◌then◌else◌, is_empty,
}
use datakit_operator.Config.Selector.{
  Compilers, Selector, Labels, setup, match_namespace, match_labels, cons_some,
}
use datakit_operator.Config.Resource.{ResourceRequirements, usable}

-- An item of a `mapslice.MapSlice`: `none` for a key or a value that is not a string.
abbrev pub MapItem : Type 0
MapItem = Option String × Option String

-- `environments` is `none` for the nil slice of a configuration that does not name them.
pub record InjectRule : Type 0 where
  pub name : String
  pub selector : Selector
  pub image : String
  pub image_pull_policy : String
  pub environments : Option (List MapItem)
  pub resources : ResourceRequirements
  pub envs : List (String × String)

pub record DdTraceRule : Type 0 where
  pub rule : InjectRule
  pub check_annotation : Bool
  pub language : String
  pub php_loader_flavor : String

pub record OTelRule : Type 0 where
  pub rule : InjectRule
  pub check_annotation : Bool
  pub language : String

pub record LogfwdRule : Type 0 where
  pub rule : InjectRule
  pub check_annotation : Bool
  pub log_configs : String
  pub log_volume_paths : List String

pub record FlameshotRule : Type 0 where
  pub rule : InjectRule
  pub processes : String
  pub enable_prometheus_annotations : Bool

pub record ProfilerRule : Type 0 where
  pub rule : InjectRule
  pub check_annotation : Bool
  pub language : String
  pub images : List (String × String)

abbrev pub items : Option (List MapItem) → List MapItem
items none = []
items (some xs) = xs

string_items : List MapItem → List (String × String)
string_items [] = []
string_items ((some k, some v) ∷ xs) = (k, v) ∷ string_items xs
string_items (_ ∷ xs) = string_items xs

-- `setupEnvs`: items that are not strings are left out.
unfoldable pub setup_envs : InjectRule → InjectRule
unfolding string_items
setup_envs r = record r { envs = r.envs ++ string_items (items r.environments) }

-- The body of the loop of `setupInjectRules`, for a rule that is not null.
unfoldable pub setup_rule : Compilers → InjectRule → InjectRule
unfolding usable setup setup_envs
setup_rule c r =
    setup_envs (record r { resources = usable c r.resources; selector = setup c r.selector })

unfoldable pub inject_rule_matches : InjectRule → String → Labels → Bool
unfolding match_namespace match_labels
inject_rule_matches r ns labels =
    let s = r.selector in
    if is_empty s.namespaces && is_empty s.labels
    then false
    else if not (is_empty s.namespaces) && is_empty s.namespace_selectors
    then false
    else if not (is_empty s.labels) && is_empty s.label_selectors
    then false
    else (if is_empty s.namespace_selectors then true else match_namespace s ns)
      && (if is_empty s.label_selectors then true else match_labels s labels)

-- A rule of any of the five kinds is given with its common part; `none` is a null rule.
module _ {T : Type 0} (common_rule : T → InjectRule) where
  unfoldable pub matching : Option T → String → Labels → Option T
  unfolding inject_rule_matches
  matching none ns labels = none
  matching (some t) ns labels =
      if inject_rule_matches (common_rule t) ns labels then some t else none

  -- `matchInjectRule`: the first rule that matches
  unfoldable pub match_inject_rule : List (Option T) → String → Labels → Option T
  unfolding inject_rule_matches
  match_inject_rule [] ns labels = none
  match_inject_rule (none ∷ rs) ns labels = match_inject_rule rs ns labels
  match_inject_rule (some t ∷ rs) ns labels =
      if inject_rule_matches (common_rule t) ns labels
      then some t
      else match_inject_rule rs ns labels

  -- `matchAllInjectRules`: every rule that matches, in the order of the file
  unfoldable pub match_all_inject_rules : List (Option T) → String → Labels → List T
  unfolding matching
  match_all_inject_rules [] ns labels = []
  match_all_inject_rules (r ∷ rs) ns labels =
      cons_some (matching r ns labels) (match_all_inject_rules rs ns labels)

-- `setupInjectRules`, given how a kind of rule takes a new common part.
unfoldable pub setup_inject_rules :
    {T : Type 0}
    → ((InjectRule → InjectRule) → T → T)
    → Compilers
    → List (Option T)
    → List (Option T)
unfolding setup_rule
setup_inject_rules update c [] = []
setup_inject_rules update c (none ∷ rs) = none ∷ setup_inject_rules update c rs
setup_inject_rules update c (some t ∷ rs) =
    some (update (setup_rule c) t) ∷ setup_inject_rules update c rs

pub record MutateRule : Type 0 where
  pub selector : Selector
  pub config : String

unfoldable pub setup_mutate_rule : Compilers → MutateRule → MutateRule
unfolding setup
setup_mutate_rule c r = record r { selector = setup c r.selector }

unfoldable pub setup_mutate_rules : Compilers → List (Option MutateRule) → List (Option MutateRule)
unfolding setup_mutate_rule
setup_mutate_rules c [] = []
setup_mutate_rules c (none ∷ rs) = none ∷ setup_mutate_rules c rs
setup_mutate_rules c (some r ∷ rs) = some (setup_mutate_rule c r) ∷ setup_mutate_rules c rs

-- `MutateRules.Matches`: here both selectors must be given and match
unfoldable pub match_mutate_rule : List (Option MutateRule) → String → Labels → Option MutateRule
unfolding match_namespace match_labels
match_mutate_rule [] ns labels = none
match_mutate_rule (none ∷ rs) ns labels = match_mutate_rule rs ns labels
match_mutate_rule (some r ∷ rs) ns labels =
    if match_namespace r.selector ns && match_labels r.selector labels
    then some r
    else match_mutate_rule rs ns labels
