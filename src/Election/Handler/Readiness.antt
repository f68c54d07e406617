-- ===== src/Election/Handler/Readiness.antt =====
-- The startup probe of apis/election/handler.go.
use datakit_operator.Common.{
  ◌≡◌, ◌≢◌, ◌↔◌, inl, inr, refl, Option, none, true, String, ◌==◌, List, [], ◌∷◌, arith, eq_iff,
  Bool-cases,
}
use datakit_operator.Election.Cluster.{Cluster, Review, allowed, denied, review_failed}
use datakit_operator.Election.Coordinator.{Coordinator, ElectError, storage_error}
use datakit_operator.Election.Handler.{after_review, check_verbs, check_ready, verbs}

module _ {W : Type 0} (env : Cluster W) where
  -- Each verb in turn is allowed, and the cache is ready once all have been reviewed.
  abbrev pub AllAllowed : String → List String → W → Type 0
  AllAllowed namespace [] w = env.cache_ready w ≡ true
  AllAllowed namespace (verb ∷ rest) w =
      ((env.review namespace verb w).0 ≡ allowed)
      × AllAllowed namespace rest (env.review namespace verb w).1

  after_review-eq-none :
      (P : W → Type 0) (next : W → Option ElectError × Coordinator × W) (c : Coordinator)
      (out : Review × W)
      → (((next out.1).0 ≡ none) ↔ P out.1)
      → ((after_review env next c out).0 ≡ none) ↔ ((out.0 ≡ allowed) × P out.1)
  unfolding after_review storage_error
  after_review-eq-none P next c (allowed, w) (to, from) = (λ h. (refl, to h), λ h. from h.1)
  after_review-eq-none P next c (denied, w) h = (λ e. cc, λ e. cc e.0)
  after_review-eq-none P next c (review_failed e, w) h = (λ e. cc, λ e. cc e.0)

  check_verbs-eq-none :
      (names : List String) (c : Coordinator) (w : W)
      → ((check_verbs env names c w).0 ≡ none) ↔ AllAllowed c.namespace names w
  unfolding check_verbs
  check_verbs-eq-none [] c w = elim (Bool-cases (env.cache_ready w)) [
    | inl ready ↦ rw ready (λ h. refl, λ h. refl)
    | inr waiting ↦ rw waiting (λ h. cc, λ h. cc)
  ]
  check_verbs-eq-none (verb ∷ rest) c w =
      after_review-eq-none (AllAllowed c.namespace rest) (check_verbs env rest c) c
        (env.review c.namespace verb w)
        (check_verbs-eq-none rest c (env.review c.namespace verb w).1)

  -- The status check finds no error exactly if the operator's namespace is not empty, each of
  -- the five verbs on Leases is allowed to it in turn, and the cache is ready after the
  -- reviews.
  pub check_ready-eq-none_iff :
      (c : Coordinator) (w : W)
      → ((check_ready env c w).0 ≡ none) ↔ ((c.namespace ≢ "") × AllAllowed c.namespace verbs w)
  unfolding check_ready
  check_ready-eq-none_iff c w =
      let (to, from) = check_verbs-eq-none verbs c w in
      elim (Bool-cases (c.namespace == "")) [
        | inl empty ↦ rw empty (λ h. cc, λ h. absurd (h.0 ((eq_iff c.namespace "").0 empty)))
        | inr named ↦ rw named (λ h. (ground (arith, eq_iff c.namespace ""), to h), λ h. from h.1)
      ]
