-- ===== src/Logging/Handler/Served.antt =====
-- What a DataKit node is told (HandleConfigs and findMatchingConfigs).
use datakit_operator.Common.{
  Option, none, some, Bool, true, false, ◌||◌, [], ◌∷◌, ◌++◌, String, ◌≡◌, ◌≢◌, refl, sym, ap, ◌∙◌,
  ◌==◌, if◌then◌else◌, eq_iff, arith, Bool-cases, inl, inr, All,
}
use mathlib.Core.Bool.{false≢true}
use datakit_operator.Logging.Cache.{CachedConfig, Cache, find_matching_configs, matches_selector}
use datakit_operator.Logging.Handler.{LoggingReply, handle_configs, reply_with, refuse}

-- The entry is in the cache, matches the pod, and no entry before it does.
pub record IsFirstMatch (cache : Cache) (namespace pod_name pod_labels : String) (e : CachedConfig)
    : Type 0 where
  pub before : Cache
  pub after : Cache
  pub at : cache ≡ before ++ e ∷ after
  pub matches : matches_selector e namespace pod_name pod_labels ≡ true
  pub passed : All (λ b. matches_selector b namespace pod_name pod_labels ≡ false) before

-- The answer is given by an entry that serves it.
abbrev pub Serves : Cache → String → String → String → Option CachedConfig → Type 0
Serves cache namespace pod_name pod_labels none =
    All (λ b. matches_selector b namespace pod_name pod_labels ≡ false) cache
Serves cache namespace pod_name pod_labels (some e) =
    IsFirstMatch cache namespace pod_name pod_labels e

Serves-cons :
    (e : CachedConfig) (cache : Cache) (namespace pod_name pod_labels : String)
    (found : Option CachedConfig)
    → matches_selector e namespace pod_name pod_labels ≡ false
    → Serves cache namespace pod_name pod_labels found
    → Serves (e ∷ cache) namespace pod_name pod_labels found
Serves-cons e cache namespace pod_name pod_labels none h s = (h, s)
Serves-cons e cache namespace pod_name pod_labels (some f) h s = record {
  before = e ∷ s.before;
  after = s.after;
  at = ap (◌∷◌ e) s.at;
  matches = s.matches;
  passed = (h, s.passed);
}

-- findMatchingConfigs returns the first entry of the cache that matches the pod, and none only if
-- no entry matches.
pub find_matching_configs-Serves :
    (cache : Cache) (namespace pod_name pod_labels : String)
    → Serves cache namespace pod_name pod_labels
        (find_matching_configs cache namespace pod_name pod_labels)
unfolding find_matching_configs
find_matching_configs-Serves [] namespace pod_name pod_labels = tt
find_matching_configs-Serves (e ∷ cache) namespace pod_name pod_labels =
    elim (Bool-cases (matches_selector e namespace pod_name pod_labels)) [
      | inl here ↦
          rw here (record { before = []; after = cache; at = refl; matches = here; passed = tt })
      | inr later ↦ rw later (
          Serves-cons e cache namespace pod_name pod_labels _ later
            (find_matching_configs-Serves cache namespace pod_name pod_labels))
    ]

-- The reply tells an entry that serves the pod.
pub Told : Cache → String → String → String → LoggingReply → Type 0
Told cache namespace pod_name pod_labels reply =
    (e : CachedConfig) × IsFirstMatch cache namespace pod_name pod_labels e
    × (e.configs ≢ "")
    × (reply ≡ (
      200,
      record {
        name = e.name;
        pod_target_labels = e.pod_target_labels;
        configs = e.configs;
        error = "";
      },
    ))

reply_with_empty : (e : CachedConfig) → (e.configs == "") ≡ true → (reply_with (some e)).0 ≡ 404
unfolding reply_with
reply_with_empty e h = rw h refl

Told-found :
    (cache : Cache) (namespace pod_name pod_labels : String) (found : Option CachedConfig)
    → Serves cache namespace pod_name pod_labels found
    → (reply_with found).0 ≡ 200
    → Told cache namespace pod_name pod_labels (reply_with found)
unfolding reply_with Told
Told-found cache namespace pod_name pod_labels none s h = absurd (omega arith)
Told-found cache namespace pod_name pod_labels (some e) s h = elim (Bool-cases (e.configs == "")) [
  | inl empty ↦ absurd (omega (arith, h, reply_with_empty e empty))
  | inr given ↦ rw given (e, s, (λ p. false≢true (sym given ∙ (eq_iff e.configs "").1 p)), refl)
]

Told-if :
    (cache : Cache) (namespace pod_name pod_labels : String) (absent : Bool)
    (found : Option CachedConfig)
    → Serves cache namespace pod_name pod_labels found
    → (if absent
        then refuse 400 "namespace, pod_name parameters are required"
        else reply_with found).0
      ≡ 200
    → Told cache namespace pod_name pod_labels (
        if absent
        then refuse 400 "namespace, pod_name parameters are required"
        else reply_with found)
Told-if cache namespace pod_name pod_labels true found s h = absurd (omega (arith, h))
Told-if cache namespace pod_name pod_labels false found s h =
    Told-found cache namespace pod_name pod_labels found s h

-- A request that is answered with the status 200 is told the name, the target labels and the
-- configurations of the first entry of the cache that matches the pod, and these configurations
-- are not empty.
pub handle_configs-Told :
    (cache : Cache) (namespace pod_name pod_labels : String)
    → (handle_configs cache namespace pod_name pod_labels).0 ≡ 200
    → Told cache namespace pod_name pod_labels (handle_configs cache namespace pod_name pod_labels)
unfolding handle_configs
handle_configs-Told cache namespace pod_name pod_labels h =
    Told-if cache namespace pod_name pod_labels (namespace == "" || pod_name == "") _
      (find_matching_configs-Serves cache namespace pod_name pod_labels) h
