-- ===== src/Election/Observation/Coherence.antt =====
-- The two slots of one lease name, in `remaining` of apis/election/lease_observation.go.
use datakit_operator.Common.{ℕ, ◌<◌, ◌≡◌, refl, some, true, false, String, arith, eq_iff, eq_refl}
use datakit_operator.Election.Lease.{Lease}
use datakit_operator.Election.Observation.{
  ObservationSource, from_cache, from_store, Slots, LeaseObservations, get_slot, is_held,
  is_superseded, is_version, observe, left_of_term, remaining,
}

-- Two slots that show one version hold one observation.
abbrev pub IsCoherentSlots : Slots → Type 0
IsCoherentSlots s =
    s.in_cache.known ≡ true
    → s.in_store.known ≡ true
    → s.in_cache.uid ≡ s.in_store.uid
    → s.in_cache.resource_version ≡ s.in_store.resource_version
    → s.in_cache ≡ s.in_store

abbrev pub IsCoherent : LeaseObservations → Type 0
IsCoherent o = (name : String) → IsCoherentSlots (o name)

pub observe-IsCoherentSlots :
    (s : Slots) (l : Lease) (source : ObservationSource) (t : ℕ)
    → IsCoherentSlots s
    → IsCoherentSlots (observe s l source t)
unfolding observe
observe-IsCoherentSlots s l from_cache t h = ground (
  arith,
  eq_iff s.in_store.uid l.uid,
  eq_iff l.uid s.in_store.uid,
  eq_iff s.in_store.resource_version l.resource_version,
)
observe-IsCoherentSlots s l from_store t h = ground (
  arith,
  eq_iff s.in_cache.uid l.uid,
  eq_iff l.uid s.in_store.uid,
  eq_iff s.in_cache.resource_version l.resource_version,
)

-- The slot that was read shows the lease's version afterwards.
pub observe-is_version :
    (s : Slots) (l : Lease) (source : ObservationSource) (t : ℕ)
    → is_version (get_slot source (observe s l source t)) l ≡ true
unfolding observe
observe-is_version s l from_cache t = ground (arith, eq_refl l.uid, eq_refl l.resource_version)
observe-is_version s l from_store t = ground (arith, eq_refl l.uid, eq_refl l.resource_version)

pub observe_again :
    (s : Slots) (l : Lease) (source : ObservationSource) (t : ℕ)
    → is_version (get_slot source s) l ≡ true
    → observe s l source t ≡ s
unfolding observe
observe_again s l source t h = rw h

-- Once one source has shown the version, either source reads the same observation.
pub observe_shared :
    (s : Slots) (l : Lease) (a b : ObservationSource) (t : ℕ)
    → IsCoherentSlots s
    → is_version (get_slot a s) l ≡ true
    → get_slot b (observe s l b t) ≡ get_slot a s
unfolding observe
observe_shared s l from_cache from_cache t c h = ground arith
observe_shared s l from_store from_store t c h = ground arith
observe_shared s l from_cache from_store t c h = ground (
  arith,
  eq_iff s.in_cache.uid l.uid,
  eq_iff s.in_store.uid l.uid,
  eq_iff s.in_cache.resource_version l.resource_version,
  eq_iff s.in_store.resource_version l.resource_version,
)
observe_shared s l from_store from_cache t c h = ground (
  arith,
  eq_iff s.in_cache.uid l.uid,
  eq_iff s.in_store.uid l.uid,
  eq_iff s.in_cache.resource_version l.resource_version,
  eq_iff s.in_store.resource_version l.resource_version,
)

-- A lease that gets an answer from the clock: it is held and the store has shown nothing newer.
abbrev pub IsAnswered : LeaseObservations → Lease → ObservationSource → Type 0
IsAnswered o l source = (is_held l ≡ true) × (is_superseded (o l.name).in_store l source ≡ false)

pub remaining-IsAnswered :
    (o : LeaseObservations) (l : Lease) (source : ObservationSource) (t : ℕ)
    → 0 < (remaining o (some l) source t).1
    → IsAnswered o l source
unfolding remaining
remaining-IsAnswered o l source t h = ground arith

-- The value of an answer, and the record that it leaves.
pub answer_value :
    (o : LeaseObservations) (l : Lease) (source : ObservationSource) (t : ℕ)
    → IsAnswered o l source
    → (remaining o (some l) source t).1
      ≡ left_of_term l (get_slot source (observe (o l.name) l source t)) t
unfolding remaining
answer_value o l source t (held, fresh) = rw (held, fresh) refl

pub answer_slots :
    (o : LeaseObservations) (l : Lease) (source : ObservationSource) (t : ℕ)
    → IsAnswered o l source
    → (remaining o (some l) source t).0 l.name ≡ observe (o l.name) l source t
unfolding remaining
answer_slots o l source t (held, fresh) = rw (held, fresh, eq_refl l.name) refl
