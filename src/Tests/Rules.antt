-- ===== src/Tests/Rules.antt =====
-- The laws of config at one configuration, with compilers that know a few texts.
use datakit_operator.Common.{
  ◌≡◌, refl, Option, none, some, Bool, true, false, String, List, [], ◌∷◌, map, ◌==◌, ◌&&◌,
  if◌then◌else◌, lookup,
}
use datakit_operator.Config.Selector.{Compilers, LabelSelector, Labels, Selector}
use datakit_operator.Config.Resource.{ResourceRequirements}
use datakit_operator.Config.Rules.{
  InjectRule, DdTraceRule, MutateRule, setup_rule, setup_mutate_rule, setup_mutate_rules,
  inject_rule_matches, match_mutate_rule,
}
use datakit_operator.Config.Rules.Matching.{
  chooses, accepts_namespace, accepts_labels, head, passing, inject_rule_matches-setup_rule,
  match_mutate_rule-setup_mutate_rules,
}
use datakit_operator.Config.Legacy.{DeprecatedInjectRule, convert_deprecated_inject_rule}
use datakit_operator.Config.Legacy.Converted.{ChoosesAs, convert_deprecated_inject_rule-ChoosesAs}
use datakit_operator.Config.Setup.{Configuration, setup_configuration}
use datakit_operator.Config.Setup.Usable.{
  ParsesDefaults, HasUsableRules, setup_configuration-HasUsableRules,
}

abbrev few_patterns : String → Option (String → Bool)
few_patterns s =
    if s == ".*" then some (λ ns. true) else if s == "shop" then some (λ ns. ns == "shop") else none

abbrev has_label : Option String → Bool
has_label none = false
has_label (some v) = v == "web"

abbrev few_selectors : String → Option LabelSelector
few_selectors s =
    if s == "app=web"
    then some (record { empty = false; matches = λ m. has_label (lookup "app" m) })
    else none

abbrev pub few : Compilers
few = record {
  compile_regexp = few_patterns;
  parse_labels = few_selectors;
  parse_quantity = λ q. if q == "lots" then none else some q;
}

abbrev pub selector : Selector
selector = record {
  namespaces = "shop" ∷ "[" ∷ [];
  labels = "app=web" ∷ [];
  namespace_selectors = [];
  label_selectors = [];
}

abbrev pub too_much : ResourceRequirements
too_much = record {
  requests = record { cpu = "lots"; memory = "" };
  limits = record { cpu = ""; memory = "" };
}

abbrev pub rule : InjectRule
rule = record {
  name = "r";
  selector = selector;
  image = "i";
  image_pull_policy = "";
  environments = none;
  resources = too_much;
  envs = [];
}

abbrev web : Labels
web = ("app", "web") ∷ []

inject_rule_matches-setup_rule_example :
    inject_rule_matches (setup_rule few rule) "shop" web ≡ chooses few selector "shop" web
inject_rule_matches-setup_rule_example = inject_rule_matches-setup_rule few rule "shop" web

abbrev ddtrace : DdTraceRule
ddtrace = record { rule = rule; check_annotation = true; language = "java"; php_loader_flavor = "" }

abbrev ddtraces : List (Option DdTraceRule)
ddtraces = none ∷ some ddtrace ∷ []

abbrev loggings : List (Option MutateRule)
loggings = some (record { selector = selector; config = "[]" }) ∷ []

match_mutate_rule-setup_mutate_rules_example :
    match_mutate_rule (setup_mutate_rules few loggings) "shop" web
    ≡ head (
        map (setup_mutate_rule few) (
          passing
            (λ r.
              accepts_namespace few r.selector.namespaces "shop"
              && accepts_labels few r.selector.labels web)
            loggings))
match_mutate_rule-setup_mutate_rules_example =
    match_mutate_rule-setup_mutate_rules few loggings "shop" web

abbrev legacy : DeprecatedInjectRule
legacy = record {
  enabled_namespaces = [];
  enabled_label_selectors = [];
  images = ("java_agent_image", "dd") ∷ [];
  environments = none;
  resources = too_much;
}

convert_deprecated_inject_rule-ChoosesAs_example :
    ChoosesAs few legacy "any" web (convert_deprecated_inject_rule legacy "java_agent_image")
convert_deprecated_inject_rule-ChoosesAs_example =
    convert_deprecated_inject_rule-ChoosesAs few legacy "java_agent_image" "any" web refl

abbrev pub configuration : Configuration
configuration = record {
  server_listen = ":9543";
  log_level = "info";
  admission_inject = record {
    ddtraces = ddtraces;
    otels = [];
    logfwds = [];
    flameshots = [];
    profilers = [];
  };
  loggings = loggings;
  deprecated_admission_inject = record { ddtrace = legacy; logfwd = legacy; profiler = legacy };
}

abbrev pub parses : ParsesDefaults few
parses = record {
  cpu_request_parses = refl;
  memory_request_parses = refl;
  cpu_limit_parses = refl;
  memory_limit_parses = refl;
}

setup_configuration-HasUsableRules_example :
    HasUsableRules few (setup_configuration few configuration).admission_inject
setup_configuration-HasUsableRules_example =
    setup_configuration-HasUsableRules few parses configuration
