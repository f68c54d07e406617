-- ===== src/Election/Observation.antt =====
-- apis/election/lease_observation.go: how long a Lease version is still to be respected, measured
-- by the operator's own monotonic clock. Times are nanoseconds since the operator's start.
pub mod Coherence
pub mod Deadline
pub mod Superseded
pub mod Past
pub mod Shown
use datakit_operator.Common.{
  ℕ, ◌+◌, ◌-◌, ◌*◌, Option, none, some, Bool, true, false, not, ◌&&◌, ◌||◌, String, ◌==◌,
  if◌then◌else◌, is_some,
}
use datakit_operator.Common.Int.{ℤ, pos, negsuc, ltz}
use datakit_operator.Election.Lease.{Lease, holder, epoch, second}

pub data ObservationSource : Type 0 where
  from_cache from_store : ObservationSource

pub record LeaseObservation : Type 0 where
  pub resource_version : String
  pub uid : String
  pub epoch : ℤ
  pub observed_at : ℕ
  pub known : Bool

-- `[2]leaseObservation`, indexed by the source
pub record Slots : Type 0 where
  pub in_cache : LeaseObservation
  pub in_store : LeaseObservation

abbrev unknown : LeaseObservation
unknown = record { resource_version = ""; uid = ""; epoch = pos 0; observed_at = 0; known = false }

-- `map[string][2]leaseObservation`: a name that has no entry reads as the zero value.
abbrev pub LeaseObservations : Type 0
LeaseObservations = String → Slots

abbrev pub no_observations : LeaseObservations
no_observations name = record { in_cache = unknown; in_store = unknown }

abbrev pub set_slots : LeaseObservations → String → Slots → LeaseObservations
set_slots o key s name = if name == key then s else o name

abbrev pub get_slot : ObservationSource → Slots → LeaseObservation
get_slot from_cache s = s.in_cache
get_slot from_store s = s.in_store

abbrev set_slot : ObservationSource → LeaseObservation → Slots → Slots
set_slot from_cache v s = record s { in_cache = v }
set_slot from_store v s = record s { in_store = v }

abbrev pub other_source : ObservationSource → ObservationSource
other_source from_cache = from_store
other_source from_store = from_cache

abbrev is_cache : ObservationSource → Bool
is_cache from_cache = true
is_cache from_store = false

abbrev positive_seconds : Option ℤ → ℕ
positive_seconds none = 0
positive_seconds (some (pos n)) = n
positive_seconds (some (negsuc n)) = 0

-- The term of a lease in nanoseconds; 0 where it is missing or not positive.
abbrev pub term : Lease → ℕ
term l = positive_seconds l.lease_duration_seconds * second

abbrev is_positive : Option ℤ → Bool
is_positive (some (pos (Prim.Native.Nat.suc n))) = true
is_positive _ = false

-- A holder, a renewal time and a positive duration are set.
unfoldable pub is_held : Lease → Bool
unfolding holder
is_held l =
    not (holder (some l) == "") && is_some l.renew_time && is_positive l.lease_duration_seconds

-- The lease is older than what the store has shown, or a cached lease of another object.
unfoldable pub is_superseded : LeaseObservation → Lease → ObservationSource → Bool
unfolding epoch
is_superseded stored l source =
    stored.known
    && ((l.uid == stored.uid && ltz (epoch (some l)) stored.epoch)
        || (is_cache source && not (l.uid == stored.uid)))

unfoldable pub is_version : LeaseObservation → Lease → Bool
is_version v l = v.known && v.uid == l.uid && v.resource_version == l.resource_version

unfoldable pub first_seen : Lease → ℕ → LeaseObservation
unfolding epoch
first_seen l elapsed = record {
  resource_version = l.resource_version;
  uid = l.uid;
  epoch = epoch (some l);
  observed_at = elapsed;
  known = true;
}

-- The source's slot after it has shown the lease.
unfoldable pub observe : Slots → Lease → ObservationSource → ℕ → Slots
unfolding is_version first_seen
observe s l source elapsed =
    if is_version (get_slot source s) l
    then s
    else set_slot source
        (if is_version (get_slot (other_source source) s) l
          then get_slot (other_source source) s
          else first_seen l elapsed)
        s

-- `max(0, duration - (elapsed - observedAt))`; all three are natural numbers, so the subtraction
-- that stops at 0 gives it exactly.
abbrev pub left_of_term : Lease → LeaseObservation → ℕ → ℕ
left_of_term l v elapsed = term l + v.observed_at - elapsed

remaining_of : LeaseObservations → Lease → ObservationSource → ℕ → LeaseObservations × ℕ
remaining_of o l source elapsed =
    if not (is_held l) || is_superseded (o l.name).in_store l source
    then (o, 0)
    else let s = observe (o l.name) l source elapsed in
      (set_slots o l.name s, left_of_term l (get_slot source s) elapsed)

unfoldable pub remaining :
    LeaseObservations → Option Lease → ObservationSource → ℕ → LeaseObservations × ℕ
unfolding remaining_of
remaining o none source elapsed = (o, 0)
remaining o (some l) source elapsed = remaining_of o l source elapsed
