-- ===== src/Election/Coordinator/Term.antt =====
-- No takeover within a term (apis/election/coordinator.go).
use mathlib.Core.Path.{subst}
use datakit_operator.Common.{
  sym, zero, suc, ℕ, ◌+◌, ◌<◌, ◌≡◌, refl, Option, none, some, true, not, ◌&&◌, ◌||◌, String, ◌==◌,
  ltb, arith, Bool-cases, inl, inr, ◌⊎◌,
}
use datakit_operator.Election.Lease.{Lease, holder, max_cas_attempts}
use datakit_operator.Election.Observation.{from_cache, from_store, term, left_of_term}
use datakit_operator.Election.Observation.Shown.{
  remaining_cache-in_store, IsShown, remaining-IsShown,
}
use datakit_operator.Election.Metrics.{campaign, defeat, is_campaign}
use datakit_operator.Election.Cluster.{Reply, found, Cluster}
use datakit_operator.Election.Coordinator.{
  Result, Answer, replied, Coordinator, Request, result, look, Attempt, after_get, attempt,
  attempts, after_cache, cached, elect,
}
use datakit_operator.Election.Coordinator.Rounds.{Reads, present, missing}

module _ {W : Type 0} (env : Cluster W) where
  -- The request lost, with nothing written: the outside state is the given one.
  abbrev pub IsDefeat : Answer × Coordinator × W → W → Type 0
  IsDefeat out w = (r : Result) × (out.0 ≡ replied r) × (r.status ≡ defeat) × (out.2 ≡ w)

  look-in_store :
      (lease : Option Lease) (c : Coordinator) (w : W) (name : String)
      → ((look env lease from_cache c w).0.observations name).in_store
        ≡ (c.observations name).in_store
  unfolding look
  look-in_store lease c w name = remaining_cache-in_store c.observations lease (env.elapsed w) name

  look-IsShown :
      (l : Lease) (c : Coordinator) (w : W)
      → IsShown (c.observations l.name).in_store l
      → (look env (some l) from_store c w).1
        ≡ left_of_term l (c.observations l.name).in_store (env.elapsed w)
  unfolding look
  look-IsShown l c w h = remaining-IsShown c.observations l (env.elapsed w) h

  module _ (q : Request) (l : Lease) (w₁ : W) (op : q.operation ≡ campaign) where
    -- A campaign that reads such a version in the store before its term has passed.
    after_get-IsDefeat :
        (next : Option (Attempt env)) (c : Coordinator)
        → IsShown (c.observations l.name).in_store l
        → env.elapsed w₁ < term l + (c.observations l.name).in_store.observed_at
        → IsDefeat (after_get env next q (some l) c w₁) w₁
    unfolding after_get result
    after_get-IsDefeat next c shown early =
        let active : ltb 0 (look env (some l) from_store c w₁).1 ≡ true =
          ground (arith, look-IsShown l c w₁ shown) in
        (
          result defeat q.namespace q.id (some l) (ltb 0 (look env (some l) from_store c w₁).1),
          rw (op, active) refl,
          refl,
          rw (op, active) refl,
        )

    attempts-IsDefeat :
        (left : ℕ) (c : Coordinator) (w : W)
        → env.get q.name w ≡ (found l, w₁)
        → IsShown (c.observations l.name).in_store l
        → env.elapsed w₁ < term l + (c.observations l.name).in_store.observed_at
        → IsDefeat (attempts env left q c w) w₁
    unfolding attempts attempt
    attempts-IsDefeat zero c w read shown early = rw read (after_get-IsDefeat none c shown early)
    attempts-IsDefeat (suc left) c w read shown early =
        rw read (after_get-IsDefeat (some (attempts env left q)) c shown early)

    after_cache-IsDefeat :
        (lease : Option Lease) (c : Coordinator) (w : W)
        → env.get q.name w ≡ (found l, w₁)
        → IsShown (c.observations l.name).in_store l
        → env.elapsed w₁ < term l + (c.observations l.name).in_store.observed_at
        → IsDefeat (after_cache env q lease c w) w ⊎ IsDefeat (after_cache env q lease c w) w₁
    unfolding after_cache result
    after_cache-IsDefeat lease c w read shown early =
        let held =
          ltb 0 (look env lease from_cache c w).1
          && (is_campaign q.operation || not (holder lease == q.id)) in
        let same = look-in_store lease c w l.name in
        elim (Bool-cases held) [
          | inl beaten ↦
              inl (result defeat q.namespace q.id lease true, rw beaten refl, refl, rw beaten refl)
          | inr free ↦ inr (
              rw free (
                attempts-IsDefeat max_cas_attempts (look env lease from_cache c w).0 w read
                  (subst (λ v. IsShown v l) (sym same) shown)
                  (subst (λ v. env.elapsed w₁ < term l + v.observed_at) (sym same) early)))
        ]

    cached-IsDefeat :
        (c : Coordinator) (w : W) (out : Reply) (lease : Option Lease)
        → Reads out lease
        → env.get q.name w ≡ (found l, w₁)
        → IsShown (c.observations l.name).in_store l
        → env.elapsed w₁ < term l + (c.observations l.name).in_store.observed_at
        → IsDefeat (cached env q c w out) w ⊎ IsDefeat (cached env q c w out) w₁
    cached-IsDefeat c w out lease (present k) read shown early =
        after_cache-IsDefeat (some k) c w read shown early
    cached-IsDefeat c w out lease (missing e gone) read shown early =
        rw gone (after_cache-IsDefeat none c w read shown early)

  -- A campaign whose cache is ready and answers, that reads from the store a version which this
  -- operator has seen there before, and whose term has not passed on its clock since it first
  -- saw it, is defeated, and nothing is written.
  pub campaign_within_term :
      (q : Request) (c : Coordinator) (w w₁ : W) (l : Lease) (lease : Option Lease)
      → q.operation ≡ campaign
      → env.cache_ready w ≡ true
      → Reads (env.cache_get q.name w) lease
      → env.get q.name w ≡ (found l, w₁)
      → IsShown (c.observations l.name).in_store l
      → env.elapsed w₁ < term l + (c.observations l.name).in_store.observed_at
      → IsDefeat (elect env q c w) w ⊎ IsDefeat (elect env q c w) w₁
  unfolding elect
  campaign_within_term q c w w₁ l lease op ready cached_as read shown early =
      rw ready
        (cached-IsDefeat q l w₁ op c w (env.cache_get q.name w) lease cached_as read shown early)
