-- ===== src/Config/Setup.antt =====
-- config/config.go: the whole configuration, and `Configuration.Setup`.
pub mod Usable
use datakit_operator.Common.{
  Option, none, some, Bool, true, false, ◌||◌, List, [], ◌∷◌, String, if◌then◌else◌,
}
use datakit_operator.Config.Selector.{Compilers}
use datakit_operator.Config.Rules.{
  InjectRule, DdTraceRule, OTelRule, LogfwdRule, FlameshotRule, ProfilerRule, MutateRule,
  setup_inject_rules, setup_mutate_rules,
}
use datakit_operator.Config.Legacy.{
  DeprecatedInjectConfig, is_valid_deprecated_rule, convert_deprecated_to_ddtrace_rules,
  convert_deprecated_to_logfwd_rules, convert_deprecated_to_profiler_rules,
}

pub record AdmissionInjectConfig : Type 0 where
  pub ddtraces : List (Option DdTraceRule)
  pub otels : List (Option OTelRule)
  pub logfwds : List (Option LogfwdRule)
  pub flameshots : List (Option FlameshotRule)
  pub profilers : List (Option ProfilerRule)

pub record Configuration : Type 0 where
  pub server_listen : String
  pub log_level : String
  pub admission_inject : AdmissionInjectConfig
  pub loggings : List (Option MutateRule)
  pub deprecated_admission_inject : DeprecatedInjectConfig

-- A rule with another common part.
abbrev pub update_ddtrace : (InjectRule → InjectRule) → DdTraceRule → DdTraceRule
update_ddtrace f t = record t { rule = f t.rule }

abbrev pub update_otel : (InjectRule → InjectRule) → OTelRule → OTelRule
update_otel f t = record t { rule = f t.rule }

abbrev pub update_logfwd : (InjectRule → InjectRule) → LogfwdRule → LogfwdRule
update_logfwd f t = record t { rule = f t.rule }

abbrev pub update_flameshot : (InjectRule → InjectRule) → FlameshotRule → FlameshotRule
update_flameshot f t = record t { rule = f t.rule }

abbrev pub update_profiler : (InjectRule → InjectRule) → ProfilerRule → ProfilerRule
update_profiler f t = record t { rule = f t.rule }

unfoldable pub setup_inject : Compilers → AdmissionInjectConfig → AdmissionInjectConfig
unfolding setup_inject_rules
setup_inject c a = record {
  ddtraces = setup_inject_rules update_ddtrace c a.ddtraces;
  otels = setup_inject_rules update_otel c a.otels;
  logfwds = setup_inject_rules update_logfwd c a.logfwds;
  flameshots = setup_inject_rules update_flameshot c a.flameshots;
  profilers = setup_inject_rules update_profiler c a.profilers;
}

-- The rules that the first version's configuration gives replace those of the second, kind by kind.
unfoldable pub replace_deprecated :
    DeprecatedInjectConfig → AdmissionInjectConfig → AdmissionInjectConfig
unfolding is_valid_deprecated_rule convert_deprecated_to_ddtrace_rules
    convert_deprecated_to_logfwd_rules convert_deprecated_to_profiler_rules
replace_deprecated d a = record a {
  ddtraces =
      if is_valid_deprecated_rule d.ddtrace
      then convert_deprecated_to_ddtrace_rules d.ddtrace
      else a.ddtraces;
  logfwds =
      if is_valid_deprecated_rule d.logfwd
      then convert_deprecated_to_logfwd_rules d.logfwd
      else a.logfwds;
  profilers =
      if is_valid_deprecated_rule d.profiler
      then convert_deprecated_to_profiler_rules d.profiler
      else a.profilers;
}

unfoldable pub has_valid_deprecated_config : DeprecatedInjectConfig → Bool
unfolding is_valid_deprecated_rule
has_valid_deprecated_config d =
    is_valid_deprecated_rule d.ddtrace
    || is_valid_deprecated_rule d.logfwd
    || is_valid_deprecated_rule d.profiler

-- `Configuration.Setup`, which never returns an error
unfoldable pub setup_configuration : Compilers → Configuration → Configuration
unfolding has_valid_deprecated_config replace_deprecated setup_inject setup_mutate_rules
setup_configuration c cfg = record cfg {
  admission_inject = setup_inject c (
      if has_valid_deprecated_config cfg.deprecated_admission_inject
      then replace_deprecated cfg.deprecated_admission_inject cfg.admission_inject
      else cfg.admission_inject);
  loggings = setup_mutate_rules c cfg.loggings;
}
