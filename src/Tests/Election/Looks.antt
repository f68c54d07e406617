-- ===== src/Tests/Election/Looks.antt =====
-- The laws of `remaining` (apis/election/lease_observation.go) at one lease.
use datakit_operator.Common.{true, ◌≡◌, ◌+◌, ◌-◌, ◌≤◌, refl, some, arith}
use datakit_operator.Common.Int.{pos}
use datakit_operator.Election.Lease.{Lease}
use datakit_operator.Election.Observation.{
  from_cache, from_store, no_observations, is_version, is_held, is_superseded, observe, term,
  remaining,
}
use datakit_operator.Election.LeaseCache.{
  System, initial, start, begin_list, end_list, begin_watch, watch_opened, synced, ready, Reachable,
  starts, lists, has_listed, watches, has_opened, syncs, at_first, then_steps,
}
use datakit_operator.Election.LeaseCache.Open.{Watches, Reachable-ready}
use datakit_operator.Election.Observation.Coherence.{IsCoherent}
use datakit_operator.Election.Observation.Deadline.{remaining_deadline}
use datakit_operator.Election.Observation.Superseded.{IsFaithful, remaining_superseded}
use datakit_operator.Election.Observation.Past.{remaining-le-term}
use datakit_operator.Tests.Election.{held_lease}

abbrev earlier : Lease
earlier = record held_lease { lease_transitions = some (pos 3); resource_version = "6" }

nothing_known : IsCoherent no_observations
nothing_known name = λ a b c d. refl

nothing_shown : IsFaithful no_observations held_lease
unfolding is_version
nothing_shown from_cache h = cc
nothing_shown from_store h = cc

-- Seen in the cache at 1, and in the store at 5.
remaining_deadline_example :
    (remaining
        (remaining no_observations (some held_lease) from_cache 1).0
        (some held_lease)
        from_store
        5).1
      + (5 - 1)
    ≡ (remaining no_observations (some held_lease) from_cache 1).1
unfolding remaining is_held is_superseded observe
remaining_deadline_example =
    remaining_deadline no_observations held_lease from_cache from_store 1 5 nothing_known
      (omega arith) (omega arith) (omega arith)

remaining_superseded_example :
    remaining
      (remaining no_observations (some held_lease) from_store 1).0
      (some earlier)
      from_cache
      2
    ≡ ((remaining no_observations (some held_lease) from_store 1).0, 0)
unfolding remaining is_held is_superseded observe
remaining_superseded_example =
    remaining_superseded no_observations held_lease earlier from_cache 1 2 nothing_shown
      (omega arith) refl refl refl

remaining-le-term_example :
    (remaining no_observations (some held_lease) from_store 1).1 ≤ term held_lease
remaining-le-term_example =
    remaining-le-term no_observations held_lease from_store 1 (λ name. (omega arith, omega arith))

-- The cache after its start, a list and a watch.
abbrev watching : System
watching = synced (watch_opened (begin_watch (end_list (begin_list (start initial)))))

watching-Reachable : Reachable watching
unfolding start begin_list begin_watch watch_opened
watching-Reachable =
    then_steps
      (then_steps
        (then_steps
          (then_steps (then_steps (then_steps at_first starts) (lists refl refl)) (has_listed refl))
          (watches refl refl))
        (has_opened refl refl))
      (syncs refl)

watching-ready : ready watching ≡ true
unfolding ready start begin_list begin_watch watch_opened
watching-ready = refl

Reachable-ready_example :
    (watching.informer.runs ≤ 1)
    × (ready watching ≡ true → (watching.informer.has_synced ≡ true) × Watches watching)
Reachable-ready_example = Reachable-ready watching watching-Reachable
