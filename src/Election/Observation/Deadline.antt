-- ===== src/Election/Observation/Deadline.antt =====
-- Two looks at one version of a lease (apis/election/lease_observation.go).
use datakit_operator.Common.{
  ℕ, ◌+◌, ◌-◌, ◌<◌, ◌≤◌, ◌≡◌, Option, none, some, not, ◌||◌, String, ◌==◌, arith, eq_iff, ap,
  Bool-cases, inl, inr, ◌≢◌, if-cases,
}
use datakit_operator.Election.Lease.{Lease}
use datakit_operator.Election.Observation.{
  ObservationSource, LeaseObservation, LeaseObservations, get_slot, is_held, is_superseded, observe,
  remaining,
}
use datakit_operator.Election.Observation.Coherence.{
  IsCoherentSlots, IsCoherent, observe-IsCoherentSlots, observe-is_version, observe_shared,
  IsAnswered, remaining-IsAnswered, answer_value, answer_slots,
}

-- Two answers about one version differ by the time between them.
pub answers_differ :
    (o : LeaseObservations) (l : Lease) (a b : ObservationSource) (t₀ t₁ : ℕ)
    → IsCoherent o
    → t₀ ≤ t₁
    → IsAnswered o l a
    → IsAnswered (remaining o (some l) a t₀).0 l b
    → (remaining (remaining o (some l) a t₀).0 (some l) b t₁).1
      ≡ (remaining o (some l) a t₀).1 - (t₁ - t₀)
answers_differ o l a b t₀ t₁ c le h₀ h₁ =
    let s = observe (o l.name) l a t₀ in
    let o' = (remaining o (some l) a t₀).0 in
    let same : get_slot b (observe (o' l.name) l b t₁) ≡ get_slot a s =
      rw (answer_slots o l a t₀ h₀) (
        observe_shared s l a b t₁ (observe-IsCoherentSlots (o l.name) l a t₀ (c l.name))
          (observe-is_version (o l.name) l a t₀)) in
    omega (
      arith,
      answer_value o l a t₀ h₀,
      answer_value o' l b t₁ h₁,
      ap LeaseObservation.observed_at same,
    )

-- If the slots of every lease agree wherever they hold the same version, and a lease has time
-- left when it is looked at in one source, then a later look at the same version, in either
-- source, that finds time left finds what was left before, less the time that has passed: seeing
-- a version again restarts no timer.
pub remaining_deadline :
    (o : LeaseObservations) (l : Lease) (a b : ObservationSource) (t₀ t₁ : ℕ)
    → IsCoherent o
    → t₀ ≤ t₁
    → 0 < (remaining o (some l) a t₀).1
    → 0 < (remaining (remaining o (some l) a t₀).0 (some l) b t₁).1
    → (remaining (remaining o (some l) a t₀).0 (some l) b t₁).1 + (t₁ - t₀)
      ≡ (remaining o (some l) a t₀).1
remaining_deadline o l a b t₀ t₁ c le h₀ h₁ =
    let o' = (remaining o (some l) a t₀).0 in
    omega (
      arith,
      answers_differ o l a b t₀ t₁ c le (remaining-IsAnswered o l a t₀ h₀)
          (remaining-IsAnswered o' l b t₁ h₁),
    )

-- An answer leaves the records coherent.
pub remaining-IsCoherent :
    (o : LeaseObservations) (lease : Option Lease) (source : ObservationSource) (t : ℕ)
    → IsCoherent o
    → IsCoherent (remaining o lease source t).0
unfolding remaining
remaining-IsCoherent o none source t c = c
remaining-IsCoherent o (some l) source t c = λ name.
    let s = observe (o l.name) l source t in
    elim (Bool-cases (not (is_held l) || is_superseded (o l.name).in_store l source)) [
      | inl refused ↦ rw refused (c name)
      | inr answered ↦ rw answered (
          if-cases IsCoherentSlots (name == l.name) s (o name)
            (observe-IsCoherentSlots (o l.name) l source t (c l.name)) (c name))
    ]

-- An answer changes the record of its own lease name only.
pub remaining-ne_name :
    (o : LeaseObservations) (l : Lease) (source : ObservationSource) (t : ℕ) (name : String)
    → l.name ≢ name
    → (remaining o (some l) source t).0 name ≡ o name
unfolding remaining
remaining-ne_name o l source t name h = ground (arith, eq_iff name l.name)
