-- ===== src/Tests/Election.antt =====
-- Runs of apis/election against a store of one Lease.
mod Looks
mod Campaigns
use datakit_operator.Common.{
  ℕ, ◌+◌, ◌≡◌, refl, Option, none, some, Bool, true, false, ◌&&◌, String, ◌==◌, List, [], ◌∷◌,
  if◌then◌else◌,
}
use datakit_operator.Common.Int.{pos}
use datakit_operator.Common.Text.{◌⁀◌}
use datakit_operator.Election.Lease.{Lease}
use datakit_operator.Election.Observation.{no_observations}
use datakit_operator.Election.Metrics.{Operation, no_counts}
use datakit_operator.Election.Cluster.{
  Reply, found, failed, not_found, conflict, already_exists, allowed, Cluster,
}
use datakit_operator.Election.Coordinator.{Coordinator, Request}

-- The outside state: the stored lease, the monotonic clock, and the reads and writes so far.
pub record Store : Type 0 where
  pub lease : Option Lease
  pub clock : ℕ
  pub reads : ℕ
  pub writes : ℕ

abbrev pub tick : Store → Store
tick s = record s { reads = s.reads + 1 }

abbrev pub tick_write : Store → Store
tick_write s = record s { writes = s.writes + 1 }

abbrev read_of : Option Lease → Reply
read_of none = failed not_found
read_of (some l) = found l

abbrev pub stamped : Lease → Lease
stamped l = record l { uid = "u"; resource_version = l.resource_version ⁀ "i" }

abbrev pub try_create : Option Lease → Lease → Store → Reply × Store
try_create none l s = (found (stamped l), record s { lease = some (stamped l) })
try_create (some k) l s = (failed already_exists, s)

abbrev pub try_update : Option Lease → Lease → Store → Reply × Store
try_update none l s = (failed not_found, s)
try_update (some k) l s =
    if k.resource_version == l.resource_version
    then (found (stamped l), record s { lease = some (stamped l) })
    else (failed conflict, s)

abbrev pub one_lease : Cluster Store
one_lease = record {
  get = λ name s. (read_of s.lease, tick s);
  create = λ l s. try_create s.lease l (tick_write s);
  update = λ l s. try_update s.lease l (tick_write s);
  review = λ namespace verb s. (allowed, s);
  cache_ready = λ s. true;
  cache_get = λ name s. read_of s.lease;
  now = λ s. s.clock;
  elapsed = λ s. s.clock;
}

abbrev pub held_lease : Lease
held_lease = record {
  name = "n";
  namespace = "ns";
  uid = "u";
  resource_version = "7";
  labels = [];
  holder_identity = some "a";
  lease_duration_seconds = some (pos 30);
  acquire_time = some 0;
  renew_time = some 0;
  lease_transitions = some (pos 4);
}

abbrev pub fresh : Coordinator
fresh = record { namespace = "ns"; metrics = no_counts; observations = no_observations }

abbrev pub ask : Operation → String → Request
ask op id = record { operation = op; name = "n"; namespace = "ns"; id = id }

abbrev pub store_at : Option Lease → ℕ → Store
store_at l t = record { lease = l; clock = t; reads = 0; writes = 0 }
