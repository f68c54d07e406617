-- ===== src/Config/Legacy/Converted.antt =====
-- The pods that a converted rule chooses (convertDeprecatedInjectRule of config/legacy.go).
use datakit_operator.Common.{
  sym, false, Option, none, some, Bool, true, not, ◌&&◌, ◌||◌, List, [], ◌∷◌, String, ◌≡◌, refl,
  ◌∙◌, ◌==◌, if◌then◌else◌, is_empty, is_some, Bool-cases, inl, inr,
}
use datakit_operator.Common.Text.{is_blank}
use datakit_operator.Config.Selector.{
  Compilers, Labels, compile_namespace, replace_asterisk_with_dot_asterisk,
}
use datakit_operator.Config.Rules.{InjectRule, setup_rule, inject_rule_matches}
use datakit_operator.Config.Rules.Matching.{
  chooses, inject_rule_matches-setup_rule, pattern_accepts,
}
use datakit_operator.Config.Legacy.{
  DeprecatedInjectRule, targets, image_at, select, converted_rule, convert_deprecated_inject_rule,
}

-- The pods that the first version's rule means: those that its selectors choose, or all of them if it has
-- no selector.
abbrev pub legacy_chooses : Compilers → DeprecatedInjectRule → String → Labels → Bool
legacy_chooses c d ns m =
    if is_empty (targets d.enabled_namespaces) && is_empty (targets d.enabled_label_selectors)
    then true
    else chooses c (select (targets d.enabled_namespaces) (targets d.enabled_label_selectors)) ns m

-- No rule, or one that chooses just these pods after the set-up.
abbrev pub ChoosesAs :
    Compilers → DeprecatedInjectRule → String → Labels → Option InjectRule → Type 0
ChoosesAs c d ns m none = Unit
ChoosesAs c d ns m (some r) = inject_rule_matches (setup_rule c r) ns m ≡ legacy_chooses c d ns m

accepts_all :
    (c : Compilers) (ns : String)
    → c.compile_regexp ".*" ≡ some (λ s. true)
    → pattern_accepts (compile_namespace c ".*") ns ≡ true
unfolding compile_namespace pattern_accepts is_blank replace_asterisk_with_dot_asterisk
accepts_all c ns h = rw h refl

all_chosen :
    (c : Compilers) (ns : String) (m : Labels)
    → c.compile_regexp ".*" ≡ some (λ s. true)
    → chooses c (select (".*" ∷ []) []) ns m ≡ true
all_chosen c ns m h = rw (accepts_all c ns h) refl

rule_chooses :
    (c : Compilers) (d : DeprecatedInjectRule) (key : String) (namespaces labels : List String)
    (ns : String) (m : Labels)
    → inject_rule_matches (setup_rule c (converted_rule d key (select namespaces labels))) ns m
      ≡ chooses c (select namespaces labels) ns m
unfolding converted_rule
rule_chooses c d key namespaces labels ns m =
    inject_rule_matches-setup_rule c (converted_rule d key (select namespaces labels)) ns m

abbrev has_no_target : DeprecatedInjectRule → Bool
has_no_target d =
    is_empty (targets d.enabled_namespaces) && is_empty (targets d.enabled_label_selectors)

meant_open :
    (c : Compilers) (d : DeprecatedInjectRule) (ns : String) (m : Labels)
    → has_no_target d ≡ true
    → legacy_chooses c d ns m ≡ true
meant_open c d ns m h = rw h refl

meant_selected :
    (c : Compilers) (d : DeprecatedInjectRule) (ns : String) (m : Labels)
    → has_no_target d ≡ false
    → legacy_chooses c d ns m
      ≡ chooses c (select (targets d.enabled_namespaces) (targets d.enabled_label_selectors)) ns m
meant_selected c d ns m h = rw h refl

-- If the pattern .* compiles and matches every text, the rule that a rule of the first version is
-- converted to, if there is one, chooses after the set-up just the pods that its selectors
-- choose, or every pod where it has no selector.
pub convert_deprecated_inject_rule-ChoosesAs :
    (c : Compilers) (d : DeprecatedInjectRule) (key : String) (ns : String) (m : Labels)
    → c.compile_regexp ".*" ≡ some (λ s. true)
    → ChoosesAs c d ns m (convert_deprecated_inject_rule d key)
unfolding convert_deprecated_inject_rule
convert_deprecated_inject_rule-ChoosesAs c d key ns m h = elim (Bool-cases (has_no_target d)) [
  | inl open_ ↦ elim (Bool-cases (not (image_at key d.images == "") || is_some d.environments)) [
    | inl given ↦
        let same =
          rule_chooses c d key (".*" ∷ []) [] ns m
          ∙ all_chosen c ns m h
          ∙ sym (meant_open c d ns m open_) in
        rw (open_, given) same
    | inr nothing ↦ rw (open_, nothing) tt
  ]
  | inr selected ↦
      let same =
        rule_chooses c d key (targets d.enabled_namespaces) (targets d.enabled_label_selectors) ns m
        ∙ sym (meant_selected c d ns m selected) in
      rw selected same
]
