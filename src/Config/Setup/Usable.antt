-- ===== src/Config/Setup/Usable.antt =====
-- What holds of every rule after `Configuration.Setup`.
use datakit_operator.Common.{
  Option, none, some, true, false, List, [], ◌∷◌, ◌≡◌, refl, sym, is_some, arith, Bool-cases, inl,
  inr, All,
}
use mathlib.Core.Path.{subst}
use datakit_operator.Config.Selector.{Compilers}
use datakit_operator.Config.Resource.{
  ResourceRequirements, default_resource_requirements, nil, verify, acceptable, usable,
}
use datakit_operator.Config.Rules.{
  InjectRule, DdTraceRule, OTelRule, LogfwdRule, FlameshotRule, ProfilerRule, setup_envs,
  setup_rule, setup_inject_rules,
}
use datakit_operator.Config.Setup.{
  AdmissionInjectConfig, Configuration, setup_inject, update_ddtrace, update_otel, update_logfwd,
  update_flameshot, update_profiler, setup_configuration,
}

-- The quantities of the default requirements parse, as the documentation of the Kubernetes quantities
-- says of every number with the suffix m or Mi.
pub record ParsesDefaults (c : Compilers) : Type 0 where
  pub cpu_request_parses : is_some (c.parse_quantity "100m") ≡ true
  pub memory_request_parses : is_some (c.parse_quantity "64Mi") ≡ true
  pub cpu_limit_parses : is_some (c.parse_quantity "500m") ≡ true
  pub memory_limit_parses : is_some (c.parse_quantity "512Mi") ≡ true

-- Some requirement is given, and all that are given parse.
abbrev pub IsUsable : Compilers → ResourceRequirements → Type 0
IsUsable c r = (nil r ≡ false) × (verify c r ≡ none)

default-IsUsable : (c : Compilers) → ParsesDefaults c → IsUsable c default_resource_requirements
unfolding nil verify acceptable default_resource_requirements
default-IsUsable c p = (
  refl,
  rw (p.cpu_request_parses, p.memory_request_parses, p.cpu_limit_parses, p.memory_limit_parses)
      refl,
)

none-from {ℓ} : {A : Type ℓ} (o : Option A) → is_some o ≡ false → o ≡ none
none-from none h = refl
none-from (some a) h = ground arith

usable_valid :
    (c : Compilers) (r : ResourceRequirements)
    → nil r ≡ false
    → is_some (verify c r) ≡ false
    → usable c r ≡ r
unfolding usable
usable_valid c r given fine = rw (given, fine) refl

-- What a rule asks for is kept if it is usable, and replaced by the default otherwise.
pub usable-IsUsable :
    (c : Compilers) → ParsesDefaults c → (r : ResourceRequirements) → IsUsable c (usable c r)
unfolding usable
usable-IsUsable c p r = elim (Bool-cases (nil r)) [
  | inl empty ↦ rw empty (default-IsUsable c p)
  | inr given ↦ elim (Bool-cases (is_some (verify c r))) [
    | inl fault ↦ rw (given, fault) (default-IsUsable c p)
    | inr fine ↦
        subst (IsUsable c) (sym (usable_valid c r given fine)) (given, none-from (verify c r) fine)
  ]
]

unfoldable pub RuleUsable : {T : Type 0} → Compilers → (T → InjectRule) → Option T → Type 0
RuleUsable c common_rule none = Unit
RuleUsable c common_rule (some t) = IsUsable c (common_rule t).resources

setup_rule-IsUsable :
    (c : Compilers) → ParsesDefaults c → (r : InjectRule) → IsUsable c (setup_rule c r).resources
unfolding setup_rule setup_envs
setup_rule-IsUsable c p r = usable-IsUsable c p r.resources

setup_inject_rules-IsUsable :
    {T : Type 0} (common_rule : T → InjectRule) (update : (InjectRule → InjectRule) → T → T)
    → ((f : InjectRule → InjectRule) (t : T) → common_rule (update f t) ≡ f (common_rule t))
    → (c : Compilers) → ParsesDefaults c
    → (rs : List (Option T)) → All (RuleUsable c common_rule) (setup_inject_rules update c rs)
unfolding setup_inject_rules RuleUsable
setup_inject_rules-IsUsable common_rule update law c p [] = tt
setup_inject_rules-IsUsable common_rule update law c p (none ∷ rs) =
    (tt, setup_inject_rules-IsUsable common_rule update law c p rs)
setup_inject_rules-IsUsable common_rule update law c p (some t ∷ rs) = (
  subst (λ r. IsUsable c r.resources) (sym (law (setup_rule c) t))
      (setup_rule-IsUsable c p (common_rule t)),
  setup_inject_rules-IsUsable common_rule update law c p rs,
)

-- Every rule of the five lists has usable requirements.
abbrev pub HasUsableRules : Compilers → AdmissionInjectConfig → Type 0
HasUsableRules c a =
    All (RuleUsable c DdTraceRule.rule) a.ddtraces
    × All (RuleUsable c OTelRule.rule) a.otels
    × All (RuleUsable c LogfwdRule.rule) a.logfwds
    × All (RuleUsable c FlameshotRule.rule) a.flameshots
    × All (RuleUsable c ProfilerRule.rule) a.profilers

-- If the four default quantities parse, then after Configuration.Setup every rule of the five
-- kinds that is not null, converted from the first version's configuration or not, asks for some
-- resource, and every quantity that it asks for parses.
pub setup_configuration-HasUsableRules :
    (c : Compilers)
    → ParsesDefaults c
    → (cfg : Configuration) → HasUsableRules c (setup_configuration c cfg).admission_inject
unfolding setup_configuration setup_inject
setup_configuration-HasUsableRules c p cfg = (
  setup_inject_rules-IsUsable DdTraceRule.rule update_ddtrace (λ f t. refl) c p _,
  setup_inject_rules-IsUsable OTelRule.rule update_otel (λ f t. refl) c p _,
  setup_inject_rules-IsUsable LogfwdRule.rule update_logfwd (λ f t. refl) c p _,
  setup_inject_rules-IsUsable FlameshotRule.rule update_flameshot (λ f t. refl) c p _,
  setup_inject_rules-IsUsable ProfilerRule.rule update_profiler (λ f t. refl) c p _,
)
