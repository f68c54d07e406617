-- ===== src/Election/Observation/Past.antt =====
-- Observations on a monotonic clock (apis/election/lease_observation.go).
use datakit_operator.Common.{
  ℕ, ◌≤◌, Option, none, some, not, ◌||◌, String, ◌==◌, arith, Bool-cases, inl, inr, if-cases,
}
use datakit_operator.Election.Lease.{Lease}
use datakit_operator.Election.Observation.{
  ObservationSource, from_cache, from_store, Slots, LeaseObservations, get_slot, term, is_held,
  is_superseded, observe, remaining,
}

-- No observation lies in the future.
abbrev pub IsPast : LeaseObservations → ℕ → Type 0
IsPast o t =
    (name : String) → ((o name).in_cache.observed_at ≤ t) × ((o name).in_store.observed_at ≤ t)

observe-past :
    (s : Slots) (l : Lease) (source : ObservationSource) (t : ℕ)
    → (s.in_cache.observed_at ≤ t) × (s.in_store.observed_at ≤ t)
    → ((observe s l source t).in_cache.observed_at ≤ t)
      × ((observe s l source t).in_store.observed_at ≤ t)
unfolding observe
observe-past s l from_cache t h = ground arith
observe-past s l from_store t h = ground arith

pub remaining-IsPast :
    (o : LeaseObservations) (lease : Option Lease) (source : ObservationSource) (t : ℕ)
    → IsPast o t
    → IsPast (remaining o lease source t).0 t
unfolding remaining
remaining-IsPast o none source t h = h
remaining-IsPast o (some l) source t h = λ name.
    let s = observe (o l.name) l source t in
    let P = λ (v : Slots). (v.in_cache.observed_at ≤ t) × (v.in_store.observed_at ≤ t) in
    elim (Bool-cases (not (is_held l) || is_superseded (o l.name).in_store l source)) [
      | inl refused ↦ rw refused (h name)
      | inr answered ↦ rw answered (
          if-cases P (name == l.name) s (o name) (observe-past (o l.name) l source t (h l.name))
            (h name))
    ]

get_slot-past :
    (s : Slots) (source : ObservationSource) (t : ℕ)
    → (s.in_cache.observed_at ≤ t) × (s.in_store.observed_at ≤ t)
    → (get_slot source s).observed_at ≤ t
get_slot-past s from_cache t h = h.0
get_slot-past s from_store t h = h.1

-- If every recorded first look lies in the past, no lease is found with more time left than its
-- own term.
pub remaining-le-term :
    (o : LeaseObservations) (l : Lease) (source : ObservationSource) (t : ℕ)
    → IsPast o t
    → (remaining o (some l) source t).1 ≤ term l
unfolding remaining
remaining-le-term o l source t h =
    let s = observe (o l.name) l source t in
    let past = get_slot-past s source t (observe-past (o l.name) l source t (h l.name)) in
    elim (Bool-cases (not (is_held l) || is_superseded (o l.name).in_store l source)) [
      | inl refused ↦ rw refused (omega arith)
      | inr answered ↦ rw answered (omega arith)
    ]
