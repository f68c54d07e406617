-- ===== src/Election/Observation/Superseded.antt =====
-- What the store has shown outranks older terms (apis/election/lease_observation.go).
use datakit_operator.Common.{
  ℕ, ◌-◌, ◌<◌, ◌≤◌, ◌≡◌, refl, some, true, false, arith, eq_iff, Bool-cases, inl, inr, not, ◌||◌,
  ◌==◌,
}
use mathlib.Core.Path.{subst}
use datakit_operator.Common.Int.{ltz, ltz_irrefl}
use datakit_operator.Election.Lease.{Lease, epoch}
use datakit_operator.Election.Observation.{
  ObservationSource, from_cache, from_store, LeaseObservation, Slots, LeaseObservations, get_slot,
  is_held, is_superseded, is_version, observe, remaining, first_seen, no_observations,
}
use datakit_operator.Election.Observation.Coherence.{
  IsCoherent, observe-is_version, IsAnswered, remaining-IsAnswered, answer_slots,
}
use datakit_operator.Election.Observation.Deadline.{answers_differ}

-- A version determines the epoch: what either slot recorded of this version is the lease's own epoch.
abbrev pub IsFaithful : LeaseObservations → Lease → Type 0
IsFaithful o l =
    (source : ObservationSource)
    → is_version (get_slot source (o l.name)) l ≡ true
    → (get_slot source (o l.name)).epoch ≡ epoch (some l)

-- Nothing has been recorded at first, and a look at any lease leaves the slots faithful, if one version of
-- one object has one epoch.
pub no_observations-IsFaithful : (l : Lease) → IsFaithful no_observations l
unfolding is_version
no_observations-IsFaithful l from_cache h = cc
no_observations-IsFaithful l from_store h = cc

observe-faithful :
    (s : Slots) (k l : Lease) (source shown : ObservationSource) (t : ℕ)
    → (k.uid ≡ l.uid → k.resource_version ≡ l.resource_version → epoch (some k) ≡ epoch (some l))
    → ((a : ObservationSource)
        → is_version (get_slot a s) l ≡ true
        → (get_slot a s).epoch ≡ epoch (some l))
    → is_version (get_slot shown (observe s k source t)) l ≡ true
    → (get_slot shown (observe s k source t)).epoch ≡ epoch (some l)
unfolding observe is_version first_seen
observe-faithful s k l from_cache from_cache t same h = ground (
  arith,
  h from_cache,
  h from_store,
  same,
  eq_iff k.uid l.uid,
  eq_iff k.resource_version l.resource_version,
)
observe-faithful s k l from_store from_store t same h = ground (
  arith,
  h from_cache,
  h from_store,
  same,
  eq_iff k.uid l.uid,
  eq_iff k.resource_version l.resource_version,
)
observe-faithful s k l from_cache from_store t same h = ground (arith, h from_store)
observe-faithful s k l from_store from_cache t same h = ground (arith, h from_cache)

pub remaining-IsFaithful :
    (o : LeaseObservations) (k l : Lease) (source : ObservationSource) (t : ℕ)
    → (k.uid ≡ l.uid → k.resource_version ≡ l.resource_version → epoch (some k) ≡ epoch (some l))
    → IsFaithful o l
    → IsFaithful (remaining o (some k) source t).0 l
unfolding remaining
remaining-IsFaithful o k l source t same h shown =
    elim (Bool-cases (not (is_held k) || is_superseded (o k.name).in_store k source)) [
      | inl refused ↦ rw refused (h shown)
      | inr answered ↦ rw answered (elim (Bool-cases (l.name == k.name)) [
        | inl here ↦ rw here (
            observe-faithful (o k.name) k l source shown t same (
              subst
                (λ n.
                  (a : ObservationSource)
                  → is_version (get_slot a (o n)) l ≡ true
                  → (get_slot a (o n)).epoch ≡ epoch (some l))
                ((eq_iff l.name k.name).0 here) h))
        | inr elsewhere ↦ rw elsewhere (h shown)
      ])
    ]

observe-epoch :
    (s : Slots) (l : Lease) (t : ℕ)
    → ((source : ObservationSource)
        → is_version (get_slot source s) l ≡ true
        → (get_slot source s).epoch ≡ epoch (some l))
    → (observe s l from_store t).in_store.epoch ≡ epoch (some l)
unfolding observe
observe-epoch s l t h = ground (arith, h from_store, h from_cache)

is_version-uid : (v : LeaseObservation) (l : Lease) → is_version v l ≡ true → v.uid ≡ l.uid
unfolding is_version
is_version-uid v l h = ground (arith, eq_iff v.uid l.uid)

is_version-known : (v : LeaseObservation) (l : Lease) → is_version v l ≡ true → v.known ≡ true
unfolding is_version
is_version-known v l h = ground arith

observe-uid : (s : Slots) (l : Lease) (t : ℕ) → (observe s l from_store t).in_store.uid ≡ l.uid
observe-uid s l t =
    is_version-uid (observe s l from_store t).in_store l (observe-is_version s l from_store t)

remaining-eq-zero :
    (o : LeaseObservations) (l : Lease) (source : ObservationSource) (t : ℕ)
    → is_superseded (o l.name).in_store l source ≡ true
    → remaining o (some l) source t ≡ (o, 0)
unfolding remaining
remaining-eq-zero o l source t h = elim (Bool-cases (is_held l)) [
  | inl held ↦ rw (held, h) refl
  | inr idle ↦ rw idle refl
]

-- If whatever either slot keeps of a version of a lease has that version's epoch, and the lease
-- has time left in the store, then an earlier epoch of the same object (same name and uid) has no
-- time left afterwards, whichever source shows it, and is not recorded.
pub remaining_superseded :
    (o : LeaseObservations) (l old : Lease) (source : ObservationSource) (t₀ t₁ : ℕ)
    → IsFaithful o l
    → 0 < (remaining o (some l) from_store t₀).1
    → old.name ≡ l.name
    → old.uid ≡ l.uid
    → ltz (epoch (some old)) (epoch (some l)) ≡ true
    → remaining (remaining o (some l) from_store t₀).0 (some old) source t₁
      ≡ ((remaining o (some l) from_store t₀).0, 0)
unfolding is_superseded
remaining_superseded o l old source t₀ t₁ f h name uid less =
    let v = (observe (o l.name) l from_store t₀).in_store in
    let o' = (remaining o (some l) from_store t₀).0 in
    let recorded : (o' old.name).in_store ≡ v =
      rw (name, answer_slots o l from_store t₀ (remaining-IsAnswered o l from_store t₀ h)) refl in
    let shown = observe-is_version (o l.name) l from_store t₀ in
    remaining-eq-zero o' old source t₁ (
      rw recorded (
        ground (
          arith,
          is_version-known v l shown,
          is_version-uid v l shown,
          observe-epoch (o l.name) l t₀ f,
          eq_iff old.uid v.uid,
        )))

pub observe_cache-in_store :
    (s : Slots) (l : Lease) (t : ℕ) → (observe s l from_cache t).in_store ≡ s.in_store
unfolding observe
observe_cache-in_store s l t = ground arith

-- A lease that has an answer keeps having one from the same source.
still_fresh :
    (o : LeaseObservations) (l : Lease) (source : ObservationSource) (t : ℕ)
    → IsFaithful o l
    → IsAnswered o l source
    → is_superseded (observe (o l.name) l source t).in_store l source ≡ false
unfolding is_superseded
still_fresh o l from_cache t f (_, fresh) = rw (observe_cache-in_store (o l.name) l t) fresh
still_fresh o l from_store t f _ =
    ground (arith, observe-epoch (o l.name) l t f, ltz_irrefl (epoch (some l)))

-- If the slots are coherent and faithful to a lease, and the lease has time left in one source,
-- then a later look at the same version in that source finds what was left before less the time
-- that has passed, and nothing once that is used up.
pub remaining_again :
    (o : LeaseObservations) (l : Lease) (source : ObservationSource) (t₀ t₁ : ℕ)
    → IsCoherent o
    → IsFaithful o l
    → t₀ ≤ t₁
    → 0 < (remaining o (some l) source t₀).1
    → (remaining (remaining o (some l) source t₀).0 (some l) source t₁).1
      ≡ (remaining o (some l) source t₀).1 - (t₁ - t₀)
remaining_again o l source t₀ t₁ c f le h =
    let a = remaining-IsAnswered o l source t₀ h in
    answers_differ o l source source t₀ t₁ c le a
      (a.0, rw (answer_slots o l source t₀ a) (still_fresh o l source t₀ f a))
