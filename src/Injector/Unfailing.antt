-- ===== src/Injector/Unfailing.antt =====
-- No injection panics in setContainerResources, if the quantities of every rule parse.
pub mod Tracing
use datakit_operator.Common.{
  Option, none, some, Bool, true, false, not, List, [], ◌∷◌, map, String, ◌==◌, ◌≡◌, refl, sym, ap,
  ◌∙◌, inl, inr, Bool-cases, if-cases, if◌then◌else◌, is_some, is_empty, All, lookup,
}
use mathlib.Core.Bool.{false≢true}
use datakit_operator.Common.Text.{◌⁀◌}
use datakit_operator.Kubernetes.{EnvVar, Pod, ResourceRequirements}
use datakit_operator.Manager.{contains_container, contains_init_container}
use datakit_operator.Config.Selector.{Compilers, Labels, cons_some}
use datakit_operator.Config.Rules.{
  InjectRule, DdTraceRule, OTelRule, LogfwdRule, FlameshotRule, ProfilerRule, inject_rule_matches,
  matching, match_inject_rule, match_all_inject_rules,
}
use datakit_operator.Config.Setup.Usable.{IsUsable, RuleUsable}
use datakit_operator.Webhook.Mutate.{check_annotation_is_true}
use datakit_operator.Injector.Setting.{Setting, namespace_of, changed}
use datakit_operator.Injector.Utils.{container_resources}
use datakit_operator.Injector.Utils.Resources.{verified-given}
use datakit_operator.Injector.Profiler
use datakit_operator.Injector.Flameshot
use datakit_operator.Injector.Logfwd

-- The rule that is chosen among usable rules is usable.
module _ {T : Type 0} (c : Compilers) (common_rule : T → InjectRule) where
  chosen-usable :
      (rs : List (Option T)) (ns : String) (labels : Labels)
      → All (RuleUsable c common_rule) rs
      → RuleUsable c common_rule (match_inject_rule common_rule rs ns labels)
  unfolding match_inject_rule RuleUsable
  chosen-usable [] ns labels h = tt
  chosen-usable (none ∷ rs) ns labels (u, h) = chosen-usable rs ns labels h
  chosen-usable (some t ∷ rs) ns labels (u, h) =
      if-cases (RuleUsable c common_rule) (inject_rule_matches (common_rule t) ns labels) (some t)
        (match_inject_rule common_rule rs ns labels) u (chosen-usable rs ns labels h)

  abbrev Usable : T → Type 0
  Usable t = IsUsable c (common_rule t).resources

  cons-Usable :
      (o : Option T) (ts : List T)
      → RuleUsable c common_rule o
      → All Usable ts
      → All Usable (cons_some o ts)
  unfolding RuleUsable
  cons-Usable none ts u h = h
  cons-Usable (some t) ts u h = (u, h)

  all-Usable :
      (rs : List (Option T)) (ns : String) (labels : Labels)
      → All (RuleUsable c common_rule) rs
      → All Usable (match_all_inject_rules common_rule rs ns labels)
  unfolding match_all_inject_rules matching RuleUsable
  all-Usable [] ns labels h = tt
  all-Usable (none ∷ rs) ns labels (u, h) = all-Usable rs ns labels h
  all-Usable (some t ∷ rs) ns labels (u, h) =
      cons-Usable (matching common_rule (some t) ns labels)
        (match_all_inject_rules common_rule rs ns labels)
        (if-cases (RuleUsable c common_rule) (inject_rule_matches (common_rule t) ns labels)
          (some t) none u tt)
        (all-Usable rs ns labels h)

abbrev Given : {A : Type 0} → Option A → Type 0
Given o = is_some o ≡ true

some-Given :
    {A : Type 0} {B : Type 0} (next : Option A → Option B) (o : Option A)
    → Given o
    → ((a : A) → Given (next (some a)))
    → Given (next o)
some-Given next none h k = absurd (false≢true h)
some-Given next (some a) h k = k a

abbrev profiler_version : String → String
profiler_version l = "admission.datakit/" ⁀ l ⁀ "-profiler.version"

module _ (s : Setting) where
  -- The last step of every injection, given the resources.
  resources-Given :
      {B : Type 0} (r : InjectRule) (next : Option ResourceRequirements → Option B)
      → IsUsable s.compilers r.resources
      → ((rs : ResourceRequirements) → Given (next (some rs)))
      → Given (next (container_resources s.compilers r.resources))
  resources-Given r next u h =
      some-Given next (container_resources s.compilers r.resources)
        (verified-given s.compilers r.resources u.1) h

  MatchedProfiler : Profiler.Matched → Type 0
  MatchedProfiler none = Unit
  MatchedProfiler (some (rule, l, version)) = IsUsable s.compilers rule.rule.resources

  if_version-usable :
      (rule : ProfilerRule) (l : String) (o : Option String) (rest : Profiler.Matched)
      → IsUsable s.compilers rule.rule.resources
      → MatchedProfiler rest
      → MatchedProfiler (Profiler.if_version rule l o rest)
  unfolding MatchedProfiler
  if_version-usable rule l none rest u h = h
  if_version-usable rule l (some version) rest u h = u

  annotated-usable :
      (rule : ProfilerRule) (annotations : List (String × String)) (ls : List String)
      → IsUsable s.compilers rule.rule.resources
      → MatchedProfiler (Profiler.annotated rule annotations ls)
  unfolding Profiler.annotated MatchedProfiler
  annotated-usable rule annotations [] u = tt
  annotated-usable rule annotations (l ∷ ls) u =
      if_version-usable rule l (lookup (profiler_version l) annotations)
        (Profiler.annotated rule annotations ls) u (annotated-usable rule annotations ls u)

  language-usable :
      (annotations : List (String × String)) (o : Option ProfilerRule)
      → RuleUsable s.compilers ProfilerRule.rule o
      → MatchedProfiler (Profiler.matched_language annotations o)
  unfolding Profiler.matched_language RuleUsable MatchedProfiler
  language-usable annotations none u = tt
  language-usable annotations (some rule) u =
      if-cases MatchedProfiler rule.check_annotation _ _
        (annotated-usable rule annotations Profiler.supported_languages u)
        (if-cases MatchedProfiler (Profiler.is_supported rule.language)
          (some (rule, rule.language, "")) none u tt)

  profiler-Given :
      (pod : Pod) (m : Profiler.Matched)
      → MatchedProfiler m
      → Given (Profiler.inject_matched s pod m)
  unfolding MatchedProfiler
  profiler-Given pod none u = refl
  profiler-Given pod (some (rule, l, version)) u =
      if-cases (λ o. is_some o ≡ true) (Profiler.image_from_rule rule l == "") (some pod) _ refl
        (resources-Given rule.rule (Profiler.finish s rule _ (Profiler.reset_spec pod)) u
          (λ rs. refl))

  pub inject_profiler-Given :
      (rules : List (Option ProfilerRule)) (namespace : String) (pod : Pod)
      → All (RuleUsable s.compilers ProfilerRule.rule) rules
      → is_some (Profiler.inject_profiler s rules namespace pod) ≡ true
  unfolding Profiler.inject_profiler Profiler.matching_rule MatchedProfiler
  inject_profiler-Given rules namespace pod u =
      profiler-Given pod (Profiler.matching_rule rules (namespace_of namespace pod) pod) (
        if-cases MatchedProfiler
          (not (check_annotation_is_true pod.annotations "admission.datakit/profiler.enabled")) none
          _ tt
          (if-cases MatchedProfiler (contains_container Profiler.profiler_container_name pod) none _
            tt
            (language-usable pod.annotations _ (
              chosen-usable s.compilers ProfilerRule.rule rules (namespace_of namespace pod)
                pod.labels u))))

  with_envs-Given :
      (rule : FlameshotRule) (pod : Pod) (envs : List EnvVar)
      → IsUsable s.compilers rule.rule.resources
      → Given (Flameshot.with_envs s rule pod envs)
  with_envs-Given rule pod envs u =
      if-cases Given (Flameshot.profiling_path envs == "") (some pod) _ refl (
        if-cases Given (Flameshot.is_zero (Flameshot.flameshot_port envs)) (some pod) _ refl (
          resources-Given rule.rule
            (Flameshot.finish rule envs (Flameshot.profiling_path envs)
              (Flameshot.flameshot_port envs) pod)
            u (λ rs. refl)))

  flameshot-Given :
      (pod : Pod) (o : Option FlameshotRule)
      → RuleUsable s.compilers FlameshotRule.rule o
      → Given (Flameshot.inject_matched s pod o)
  unfolding RuleUsable
  flameshot-Given pod none u = refl
  flameshot-Given pod (some rule) u =
      if-cases Given (rule.processes == "") (some pod)
        (Flameshot.with_envs s rule pod (Flameshot.flameshot_envs s rule pod)) refl
        (with_envs-Given rule pod (Flameshot.flameshot_envs s rule pod) u)

  pub inject_flameshot-Given :
      (rules : List (Option FlameshotRule)) (namespace : String) (pod : Pod)
      → All (RuleUsable s.compilers FlameshotRule.rule) rules
      → is_some (Flameshot.inject_flameshot s rules namespace pod) ≡ true
  unfolding Flameshot.inject_flameshot Flameshot.matching_rule RuleUsable
  inject_flameshot-Given rules namespace pod u =
      flameshot-Given pod (Flameshot.matching_rule rules (namespace_of namespace pod) pod) (
        if-cases (RuleUsable s.compilers FlameshotRule.rule)
          (not (check_annotation_is_true pod.annotations "admission.datakit/flameshot.enabled"))
          none _ tt
          (if-cases (RuleUsable s.compilers FlameshotRule.rule)
            (contains_container Flameshot.flameshot_container_name pod) none _ tt
            (chosen-usable s.compilers FlameshotRule.rule rules (namespace_of namespace pod)
              pod.labels u)))

  logfwd-Given :
      (d : Logfwd.Sources.Decoders) (pod : Pod) (o : Option LogfwdRule)
      → RuleUsable s.compilers LogfwdRule.rule o
      → Given (Logfwd.inject_matched s d pod o)
  unfolding RuleUsable
  logfwd-Given d pod none u = refl
  logfwd-Given d pod (some rule) u =
      resources-Given rule.rule
        (Logfwd.finish rule (Logfwd.logfwd_envs s d rule pod)
          (Logfwd.get_volume_pairs 0 pod (Logfwd.logfwd_paths d rule pod)) pod)
        u (λ rs. refl)

  with_annotation-usable :
      (pod : Pod) (o : Option LogfwdRule)
      → RuleUsable s.compilers LogfwdRule.rule o
      → RuleUsable s.compilers LogfwdRule.rule (Logfwd.with_annotation pod o)
  unfolding RuleUsable
  with_annotation-usable pod none u = tt
  with_annotation-usable pod (some rule) u =
      if-cases (RuleUsable s.compilers LogfwdRule.rule) _ none (some rule) tt u

  pub inject_logfwd-Given :
      (d : Logfwd.Sources.Decoders) (rules : List (Option LogfwdRule)) (pod : Pod)
      → All (RuleUsable s.compilers LogfwdRule.rule) rules
      → is_some (Logfwd.inject_logfwd s d rules pod) ≡ true
  unfolding Logfwd.inject_logfwd Logfwd.matching_rule RuleUsable
  inject_logfwd-Given d rules pod u = logfwd-Given d pod (Logfwd.matching_rule rules pod) (
      if-cases (RuleUsable s.compilers LogfwdRule.rule)
        (not (check_annotation_is_true pod.annotations "admission.datakit/logfwd.enabled")) none _
        tt
        (if-cases (RuleUsable s.compilers LogfwdRule.rule)
          (contains_container Logfwd.logfwd_container_name pod) none _ tt
          (with_annotation-usable pod _
            (chosen-usable s.compilers LogfwdRule.rule rules pod.namespace pod.labels u))))
