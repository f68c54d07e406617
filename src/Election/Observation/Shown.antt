-- ===== src/Election/Observation/Shown.antt =====
-- A version that the store has already shown (apis/election/lease_observation.go).
use datakit_operator.Common.{
  ℕ, ◌≡◌, refl, Option, none, some, true, false, not, ◌||◌, String, ◌==◌, arith, eq_iff, Bool-cases,
  inl, inr, ap, sym, ◌∙◌,
}
use datakit_operator.Common.Int.{ltz_irrefl}
use datakit_operator.Election.Lease.{Lease, epoch}
use datakit_operator.Election.Observation.{
  from_cache, from_store, LeaseObservation, LeaseObservations, is_held, is_superseded, is_version,
  left_of_term, remaining,
}
use datakit_operator.Election.Observation.Coherence.{observe_again, answer_value}
use datakit_operator.Election.Observation.Superseded.{observe_cache-in_store}

-- A look at the cache changes nothing of what the store has shown.
pub remaining_cache-in_store :
    (o : LeaseObservations) (lease : Option Lease) (t : ℕ) (name : String)
    → ((remaining o lease from_cache t).0 name).in_store ≡ (o name).in_store
unfolding remaining
remaining_cache-in_store o none t name = refl
remaining_cache-in_store o (some l) t name =
    elim (Bool-cases (not (is_held l) || is_superseded (o l.name).in_store l from_cache)) [
      | inl refused ↦ rw refused refl
      | inr answered ↦ rw answered (elim (Bool-cases (name == l.name)) [
        | inl here ↦ rw here (
            observe_cache-in_store (o l.name) l t
            ∙ ap (λ n. (o n).in_store) (sym ((eq_iff name l.name).0 here)))
        | inr elsewhere ↦ rw elsewhere refl
      ])
    ]

-- What the store's slot already records of this very version.
pub record IsShown (v : LeaseObservation) (l : Lease) : Type 0 where
  pub held : is_held l ≡ true
  pub version : is_version v l ≡ true
  pub same_epoch : v.epoch ≡ epoch (some l)

IsShown-fresh :
    (v : LeaseObservation) (l : Lease) → IsShown v l → is_superseded v l from_store ≡ false
unfolding is_superseded
IsShown-fresh v l h = ground (arith, h.same_epoch, ltz_irrefl (epoch (some l)))

-- Read again from the store, such a version has what is left of its term since it was first seen.
pub remaining-IsShown :
    (o : LeaseObservations) (l : Lease) (t : ℕ)
    → IsShown (o l.name).in_store l
    → (remaining o (some l) from_store t).1 ≡ left_of_term l (o l.name).in_store t
remaining-IsShown o l t h =
    rw
      (
        answer_value o l from_store t (h.held, IsShown-fresh _ l h),
        observe_again (o l.name) l from_store t h.version,
      )
      refl
