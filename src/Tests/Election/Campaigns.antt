-- ===== src/Tests/Election/Campaigns.antt =====
-- The laws of `elect` and of the handler (apis/election) at one Lease.
use mathlib.Core.Path.{subst}
use datakit_operator.Common.{
  inl, inr, Bool-cases, Option, ◌==◌, true, ◌*◌, ◌↔◌, ℕ, ◌≡◌, ◌≢◌, ◌+◌, ◌≤◌, ◌<◌, ◌⊎◌, refl, none,
  some, arith, List, [], ◌∷◌,
}
use datakit_operator.Common.Int.{pos}
use datakit_operator.Election.Lease.{Lease, second, holder, epoch, renew_lease}
use datakit_operator.Election.LeaseName.{payload_inj}
use datakit_operator.Election.Observation.{
  from_store, no_observations, is_held, is_superseded, observe, term, remaining,
}
use datakit_operator.Election.Metrics.{campaign, heartbeat, success}
use datakit_operator.Election.Cluster.{Reply, found}
use datakit_operator.Election.Coordinator.{Coordinator, Result, replied, result, elect, look, write}
use datakit_operator.Election.Coordinator.Backed.{IsBacked, campaign-success, heartbeat-success}
use datakit_operator.Election.Coordinator.Rounds.{present}
use datakit_operator.Election.Coordinator.History.{same, accepted, sent, stamp, epoch-names_holder}
use datakit_operator.Election.Coordinator.Leads.{SameTerm, epoch_after, success-names_sender}
use datakit_operator.Election.Coordinator.Calls.{elect-calls}
use datakit_operator.Election.Coordinator.Term.{IsDefeat, campaign_within_term}
use datakit_operator.Election.Coordinator.Takeover.{campaign_takes_over}
use datakit_operator.Election.Observation.Shown.{IsShown}
use datakit_operator.Election.Handler.{Query, handle, check_ready, verbs}
use datakit_operator.Election.Handler.Replies.{Says, handle-Says}
use datakit_operator.Election.Handler.Readiness.{AllAllowed, check_ready-eq-none_iff}
use datakit_operator.Tests.Election.{
  tick, tick_write, stamped, try_create, try_update, held_lease, one_lease, fresh, ask, store_at,
  Store,
}

-- A first campaign creates the lease.
abbrev first : Result
first = record {
  status = success;
  namespace = "ns";
  id = "b";
  incumbency_id = "b";
  error_msg = "";
  error_code = "";
  interval = 3;
  lease_duration = pos 30;
  epoch = pos 1;
}

first_campaign : (elect one_lease (ask campaign "b") fresh (store_at none 9)).0 ≡ replied first
unfolding elect
first_campaign = refl

campaign-success_example :
    (b : IsBacked one_lease (ask campaign "b") fresh (store_at none 9) first) × ((look one_lease
        b.lease from_store b.coordinator b.world).1
      ≡ 0)
campaign-success_example =
    campaign-success one_lease (ask campaign "b") fresh (store_at none 9) first refl first_campaign
      refl

-- The holder renews its lease.
abbrev renewed : Result
renewed = record first { id = "a"; incumbency_id = "a"; epoch = pos 4 }

a_heartbeat :
    (elect one_lease (ask heartbeat "a") fresh (store_at (some held_lease) 9)).0 ≡ replied renewed
unfolding elect is_held is_superseded observe
a_heartbeat = refl

heartbeat-success_example :
    (b : IsBacked one_lease (ask heartbeat "a") fresh (store_at (some held_lease) 9) renewed)
    × (holder b.lease ≡ "a")
    × (0 < (look one_lease b.lease from_store b.coordinator b.world).1)
heartbeat-success_example =
    heartbeat-success one_lease (ask heartbeat "a") fresh (store_at (some held_lease) 9) renewed
      refl a_heartbeat refl

-- The holder's heartbeat is the next version of the lease.
abbrev beat : Lease
beat = stamp "8" (sent (ask heartbeat "a") held_lease 9)

epoch-names_holder_example :
    (result success "ns" "a" (some held_lease) true).incumbency_id
    ≡ (result success "ns" "a" (some beat) true).incumbency_id
unfolding epoch result renew_lease
epoch-names_holder_example =
    epoch-names_holder held_lease 4 0 beat (ask heartbeat "a") (ask heartbeat "a")
      (accepted same (ask heartbeat "a") 9 "8") refl (omega arith) refl

create_reads : (l : Lease) (s : Store) → (one_lease.create l s).1.reads ≤ s.reads + 0
create_reads l s = ground arith

update_reads : (l : Lease) (s : Store) → (one_lease.update l s).1.reads ≤ s.reads + 0
update_reads l s = ground arith

create_writes : (l : Lease) (s : Store) → (one_lease.create l s).1.writes ≤ s.writes + 1
create_writes l s = ground arith

update_writes : (l : Lease) (s : Store) → (one_lease.update l s).1.writes ≤ s.writes + 1
update_writes l s = ground arith

elect-calls_example :
    ((elect one_lease (ask campaign "b") fresh (store_at none 9)).2.reads ≤ 0 + 6)
    × ((elect one_lease (ask campaign "b") fresh (store_at none 9)).2.writes ≤ 0 + 5)
elect-calls_example =
    elect-calls one_lease Store.reads Store.writes
      (λ name s. omega arith, create_reads, update_reads)
      (λ name s. omega arith, create_writes, update_writes) (ask campaign "b") fresh
      (store_at none 9)

-- An operator that has seen the lease in the store at 1.
abbrev seen : Coordinator
seen = record fresh { observations = (remaining no_observations (some held_lease) from_store 1).0 }

seen-IsShown : IsShown (seen.observations "n").in_store held_lease
unfolding remaining is_held is_superseded observe
seen-IsShown = record { held = refl; version = refl; same_epoch = refl }

seen_early : 5 * second < term held_lease + (seen.observations "n").in_store.observed_at
unfolding remaining is_held is_superseded observe
seen_early = omega arith

campaign_within_term_example :
    IsDefeat one_lease
      (elect one_lease (ask campaign "b") seen (store_at (some held_lease) (5 * second)))
      (store_at (some held_lease) (5 * second))
    ⊎ IsDefeat one_lease
        (elect one_lease (ask campaign "b") seen (store_at (some held_lease) (5 * second)))
        (tick (store_at (some held_lease) (5 * second)))
campaign_within_term_example =
    campaign_within_term one_lease (ask campaign "b") seen (store_at (some held_lease) (5 * second))
      (tick (store_at (some held_lease) (5 * second))) held_lease (some held_lease) refl refl
      (present held_lease) refl seen-IsShown seen_early

abbrev lapsed : Lease
lapsed = record held_lease { renew_time = none }

abbrev retaken : Lease
retaken = record lapsed {
  resource_version = "7i";
  holder_identity = some "b";
  acquire_time = some 9;
  renew_time = some 9;
  lease_transitions = some (pos 5);
}

campaign_takes_over_example :
    (elect one_lease (ask campaign "b") fresh (store_at (some lapsed) 9)).0
    ≡ replied (result success "ns" "b" (some retaken) true)
unfolding look remaining is_held write
campaign_takes_over_example =
    campaign_takes_over one_lease (ask campaign "b") refl fresh (store_at (some lapsed) 9)
      (tick (store_at (some lapsed) 9))
      (tick_write (tick (record (store_at (some lapsed) 9) { lease = some retaken })))
      (found lapsed) (some lapsed) (some lapsed) retaken refl (present lapsed) refl refl
      (present lapsed) (record { expired = refl; accepted = refl })

stamped_term :
    (l u : Lease) (s after : Store)
    → (◌≡◌ {A = Reply × Store} (found (stamped l), s) (found u, after))
    → SameTerm u l
stamped_term l u s after e =
    let same_lease : stamped l ≡ u = cc in subst (λ x. SameTerm x l) same_lease (refl, refl)

created_term :
    (o : Option Lease) (l u : Lease) (s after : Store)
    → try_create o l s ≡ (found u, after)
    → SameTerm u l
created_term none l u s after e = stamped_term l u _ after e
created_term (some k) l u s after e = cc

updated_term :
    (o : Option Lease) (l u : Lease) (s after : Store)
    → try_update o l s ≡ (found u, after)
    → SameTerm u l
updated_term none l u s after e = cc
updated_term (some k) l u s after e = elim (Bool-cases (k.resource_version == l.resource_version)) [
  | inl fits ↦ stamped_term l u _ after (rw fits at e)
  | inr stale ↦ absurd (cc (rw stale at e))
]

abbrev retaken_reply : Result
retaken_reply = result success "ns" "b" (some retaken) true

retaken_success : retaken_reply.status ≡ success
unfolding result
retaken_success = refl

success-names_sender_example :
    (b : IsBacked one_lease (ask campaign "b") fresh (store_at (some lapsed) 9) retaken_reply)
    × (retaken_reply.incumbency_id ≡ "b")
    × (retaken_reply.epoch ≡ epoch_after campaign (epoch b.lease))
success-names_sender_example =
    success-names_sender one_lease (λ l u s. created_term s.lease l u (tick_write s))
      (λ l u s. updated_term s.lease l u (tick_write s)) (ask campaign "b") fresh
      (store_at (some lapsed) 9) retaken_reply (inl refl) campaign_takes_over_example
      retaken_success

payload_inj_example : (◌≡◌ {A = List ℕ} (97 ∷ []) (97 ∷ [])) × (◌≡◌ {A = List ℕ} [] [])
payload_inj_example = payload_inj (97 ∷ []) [] (97 ∷ []) [] (omega arith) (omega arith) refl

abbrev no_id : Query
no_id = record { token = "t"; namespace = "x"; id = "" }

handle-Says_example :
    Says one_lease
      (λ b. "00")
      campaign
      no_id
      fresh
      (store_at none 9)
      (handle one_lease (λ b. "00") campaign no_id fresh (store_at none 9)).0
handle-Says_example = handle-Says one_lease (λ b. "00") campaign no_id fresh (store_at none 9)

check_ready-eq-none_iff_example :
    ((check_ready one_lease fresh (store_at none 9)).0 ≡ none)
    ↔ ((fresh.namespace ≢ "") × AllAllowed one_lease "ns" verbs (store_at none 9))
check_ready-eq-none_iff_example = check_ready-eq-none_iff one_lease fresh (store_at none 9)
