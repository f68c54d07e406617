-- ===== src/Config/Rules/Matching.antt =====
-- Which pods a rule chooses (config/rules.go), stated on the selectors as the configuration gives them.
use datakit_operator.Common.{
  Option, none, some, Bool, true, false, not, ◌&&◌, ◌||◌, List, [], ◌∷◌, map, String, ◌≡◌, refl,
  sym, ap, ◌∙◌, if◌then◌else◌, is_empty, any, arith, Bool-cases, inl, inr,
}
use datakit_operator.Config.Selector.{
  Compilers, Selector, LabelSelector, Labels, setup, match_namespace, match_labels, cons_some,
  compile_namespace, compile_labels, compile_namespaces, compile_label_selectors,
}
use datakit_operator.Config.Rules.{
  InjectRule, MutateRule, setup_rule, setup_envs, inject_rule_matches, match_inject_rule,
  match_all_inject_rules, matching, setup_mutate_rules, match_mutate_rule, setup_inject_rules,
  setup_mutate_rule,
}

unfoldable pub pattern_accepts : Option (String → Bool) → String → Bool
pattern_accepts none ns = false
pattern_accepts (some re) ns = re ns

unfoldable pub labels_accept : Option LabelSelector → Labels → Bool
labels_accept none m = false
labels_accept (some p) m = p.matches m

-- Some namespace pattern that is not blank, and compiles, accepts the namespace.
abbrev pub accepts_namespace : Compilers → List String → String → Bool
accepts_namespace c patterns ns = any (λ s. pattern_accepts (compile_namespace c s) ns) patterns

-- Some label selector that parses, and is not empty, matches the labels.
abbrev pub accepts_labels : Compilers → List String → Labels → Bool
accepts_labels c selectors m = any (λ s. labels_accept (compile_labels c s) m) selectors

-- A rule without selectors chooses nothing; a kind of selector that is given must accept.
abbrev pub chooses : Compilers → Selector → String → Labels → Bool
chooses c s ns m =
    not (is_empty s.namespaces && is_empty s.labels)
    && (is_empty s.namespaces || accepts_namespace c s.namespaces ns)
    && (is_empty s.labels || accepts_labels c s.labels m)

any-cons_some {ℓ} :
    {A : Type ℓ} (p : A → Bool) (o : Option A) (xs : List A) (b : Bool)
    → elim o [ none ↦ false | some a ↦ p a ] ≡ b
    → any p (cons_some o xs) ≡ (b || any p xs)
any-cons_some p none xs b h = rw (sym h) refl
any-cons_some p (some a) xs b h = rw (sym h) refl

pattern_accepts-elim :
    (o : Option (String → Bool)) (ns : String)
    → elim o [ none ↦ false | some a ↦ a ns ] ≡ pattern_accepts o ns
unfolding pattern_accepts
pattern_accepts-elim none ns = refl
pattern_accepts-elim (some a) ns = refl

labels_accept-elim :
    (o : Option LabelSelector) (m : Labels)
    → elim o [ none ↦ false | some a ↦ a.matches m ] ≡ labels_accept o m
unfolding labels_accept
labels_accept-elim none m = refl
labels_accept-elim (some a) m = refl

compile_namespaces-accepts :
    (c : Compilers) (ns : String) (ss : List String)
    → any (λ re. re ns) (compile_namespaces c ss) ≡ accepts_namespace c ss ns
unfolding compile_namespaces
compile_namespaces-accepts c ns [] = refl
compile_namespaces-accepts c ns (s ∷ ss) =
    any-cons_some (λ re. re ns) (compile_namespace c s) (compile_namespaces c ss) _
      (pattern_accepts-elim (compile_namespace c s) ns)
    ∙ ap (λ b. pattern_accepts (compile_namespace c s) ns || b) (compile_namespaces-accepts c ns ss)

compile_label_selectors-accepts :
    (c : Compilers) (m : Labels) (ss : List String)
    → any (λ se. se.matches m) (compile_label_selectors c ss) ≡ accepts_labels c ss m
unfolding compile_label_selectors
compile_label_selectors-accepts c m [] = refl
compile_label_selectors-accepts c m (s ∷ ss) =
    any-cons_some (λ se. se.matches m) (compile_labels c s) (compile_label_selectors c ss) _
      (labels_accept-elim (compile_labels c s) m)
    ∙ ap (λ b. labels_accept (compile_labels c s) m || b) (compile_label_selectors-accepts c m ss)

-- The tests of injectRuleMatches, with `e` for an empty list of the file, `f` for an empty list of
-- compiled selectors and `x` for a match.
tests_agree :
    (e₁ f₁ x₁ e₂ f₂ x₂ : Bool)
    → (e₁ ≡ true → f₁ ≡ true)
    → (f₁ ≡ true → x₁ ≡ false)
    → (e₂ ≡ true → f₂ ≡ true)
    → (f₂ ≡ true → x₂ ≡ false)
    → (if e₁ && e₂
        then false
        else if not e₁ && f₁
        then false
        else if not e₂ && f₂
        then false
        else (if f₁ then true else x₁) && (if f₂ then true else x₂))
      ≡ (not (e₁ && e₂) && (e₁ || x₁) && (e₂ || x₂))
tests_agree e₁ f₁ x₁ e₂ f₂ x₂ h₁ k₁ h₂ k₂ = ground arith

empty-any {ℓ} : {A : Type ℓ} (p : A → Bool) (xs : List A) → is_empty xs ≡ true → any p xs ≡ false
empty-any p [] h = refl
empty-any p (x ∷ xs) h = ground arith

compile_namespaces-empty :
    (c : Compilers) (ss : List String)
    → is_empty ss ≡ true
    → is_empty (compile_namespaces c ss) ≡ true
unfolding compile_namespaces
compile_namespaces-empty c [] h = refl
compile_namespaces-empty c (s ∷ ss) h = ground arith

compile_label_selectors-empty :
    (c : Compilers) (ss : List String)
    → is_empty ss ≡ true
    → is_empty (compile_label_selectors c ss) ≡ true
unfolding compile_label_selectors
compile_label_selectors-empty c [] h = refl
compile_label_selectors-empty c (s ∷ ss) h = ground arith

-- After the set-up, injectRuleMatches accepts a pod exactly if the rule names some selector and
-- every kind of selector that it names has an entry that the set-up keeps and that accepts the
-- pod: a namespace pattern that is not blank and compiles, a label selector that parses and is
-- not the empty one. Entries that the set-up drops never widen a rule.
pub inject_rule_matches-setup_rule :
    (c : Compilers) (r : InjectRule) (ns : String) (m : Labels)
    → inject_rule_matches (setup_rule c r) ns m ≡ chooses c r.selector ns m
unfolding inject_rule_matches setup_rule setup_envs setup match_namespace match_labels
inject_rule_matches-setup_rule c r ns m =
    tests_agree _ _ _ _ _ _ (compile_namespaces-empty c r.selector.namespaces)
      (empty-any (λ re. re ns) (compile_namespaces c r.selector.namespaces))
      (compile_label_selectors-empty c r.selector.labels)
      (empty-any (λ se. se.matches m) (compile_label_selectors c r.selector.labels))
    ∙ rw
        (
          compile_namespaces-accepts c ns r.selector.namespaces,
          compile_label_selectors-accepts c m r.selector.labels,
        )
        refl

abbrev pub head {ℓ} : {A : Type ℓ} → List A → Option A
head [] = none
head (x ∷ xs) = some x

-- The rules that are not null and pass a test, in their order.
abbrev pub passing {ℓ} : {A : Type ℓ} → (A → Bool) → List (Option A) → List A
passing p [] = []
passing p (none ∷ rs) = passing p rs
passing p (some r ∷ rs) = if p r then r ∷ passing p rs else passing p rs

keep_step {ℓ} :
    {A : Type ℓ} (f : A → A) (a b : Bool) (t : A) (xs ys : List A)
    → a ≡ b
    → xs ≡ map f ys
    → cons_some (if a then some (f t) else none) xs ≡ map f (if b then t ∷ ys else ys)
keep_step f a true t xs ys h e = rw (h, e) refl
keep_step f a false t xs ys h e = rw (h, e) refl

first_step {ℓ} :
    {A : Type ℓ} (f : A → A) (a b : Bool) (t : A) (o : Option A) (ys : List A)
    → a ≡ b
    → o ≡ head (map f ys)
    → (if a then some (f t) else o) ≡ head (map f (if b then t ∷ ys else ys))
first_step f a true t o ys h e = rw (h) refl
first_step f a false t o ys h e = rw (h) e

-- matchInjectRule returns the first of the rules that matchAllInjectRules returns, and none if
-- there is none.
pub match_inject_rule-head :
    {T : Type 0} (common_rule : T → InjectRule) (rs : List (Option T)) (ns : String) (m : Labels)
    → match_inject_rule common_rule rs ns m ≡ head (match_all_inject_rules common_rule rs ns m)
unfolding match_inject_rule match_all_inject_rules matching
match_inject_rule-head common_rule [] ns m = refl
match_inject_rule-head common_rule (none ∷ rs) ns m = match_inject_rule-head common_rule rs ns m
match_inject_rule-head common_rule (some t ∷ rs) ns m =
    elim (Bool-cases (inject_rule_matches (common_rule t) ns m)) [
      | inl yes_ ↦ rw yes_ refl
      | inr no_ ↦ rw no_ (match_inject_rule-head common_rule rs ns m)
    ]

-- For a kind of rule that has the common part it is given, the rules that matchAllInjectRules
-- returns after the set-up are those that are not null and whose selectors, as the file gives
-- them, choose the pod, in the order of the file.
pub match_all_inject_rules-setup_inject_rules :
    {T : Type 0} (common_rule : T → InjectRule) (update : (InjectRule → InjectRule) → T → T)
    → ((f : InjectRule → InjectRule) (t : T) → common_rule (update f t) ≡ f (common_rule t))
    → (c : Compilers) (rs : List (Option T)) (ns : String) (m : Labels)
    → match_all_inject_rules common_rule (setup_inject_rules update c rs) ns m
      ≡ map (update (setup_rule c)) (passing (λ t. chooses c (common_rule t).selector ns m) rs)
unfolding match_all_inject_rules setup_inject_rules matching
match_all_inject_rules-setup_inject_rules common_rule update law c [] ns m = refl
match_all_inject_rules-setup_inject_rules common_rule update law c (none ∷ rs) ns m =
    match_all_inject_rules-setup_inject_rules common_rule update law c rs ns m
match_all_inject_rules-setup_inject_rules common_rule update law c (some t ∷ rs) ns m =
    keep_step (update (setup_rule c)) _ _ t _ _
      (ap (λ r. inject_rule_matches r ns m) (law (setup_rule c) t)
        ∙ inject_rule_matches-setup_rule c (common_rule t) ns m)
      (match_all_inject_rules-setup_inject_rules common_rule update law c rs ns m)

chooses_both :
    (c : Compilers) (s : Selector) (ns : String) (m : Labels)
    → (match_namespace (setup c s) ns && match_labels (setup c s) m)
      ≡ (accepts_namespace c s.namespaces ns && accepts_labels c s.labels m)
unfolding match_namespace match_labels setup
chooses_both c s ns m =
    rw (compile_namespaces-accepts c ns s.namespaces, compile_label_selectors-accepts c m s.labels)
      refl

-- After the set-up, the logging rule for a pod is the first rule that is not null, one of whose
-- namespace patterns is not blank, compiles and accepts the namespace, and one of whose label
-- selectors parses, is not the empty selector, and matches the labels: it needs both kinds of
-- selector, and a blank pattern or an empty selector, which would match everything, chooses
-- nothing.
pub match_mutate_rule-setup_mutate_rules :
    (c : Compilers) (rs : List (Option MutateRule)) (ns : String) (m : Labels)
    → match_mutate_rule (setup_mutate_rules c rs) ns m
      ≡ head (
          map (setup_mutate_rule c) (
            passing
              (λ r.
                accepts_namespace c r.selector.namespaces ns
                && accepts_labels c r.selector.labels m)
              rs))
unfolding match_mutate_rule setup_mutate_rules setup_mutate_rule
match_mutate_rule-setup_mutate_rules c [] ns m = refl
match_mutate_rule-setup_mutate_rules c (none ∷ rs) ns m =
    match_mutate_rule-setup_mutate_rules c rs ns m
match_mutate_rule-setup_mutate_rules c (some r ∷ rs) ns m =
    first_step (setup_mutate_rule c) _ _ r _ _ (chooses_both c r.selector ns m)
      (match_mutate_rule-setup_mutate_rules c rs ns m)
