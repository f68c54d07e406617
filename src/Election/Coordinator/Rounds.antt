-- ===== src/Election/Coordinator/Rounds.antt =====
-- The rounds of the loop of apis/election/coordinator.go: with which observations and in which outside state
-- a request reads the store, after the look at the cache and after each write that lost its race.
use datakit_operator.Common.{◌≡◌, Option, none, some, true}
use datakit_operator.Election.Lease.{Lease}
use datakit_operator.Election.Observation.{from_cache, from_store}
use datakit_operator.Election.Metrics.{record_cas_conflict}
use datakit_operator.Election.Cluster.{
  ApiError, Reply, found, failed, Cluster, is_not_found, is_lost_race,
}
use datakit_operator.Election.Coordinator.{Coordinator, Request, look, write}

-- The lease that a reply to a read stands for: a missing one is `none`.
pub data Reads : Reply → Option Lease → Type 0 where
  present : (l : Lease) → Reads (found l) (some l)
  missing : (e : ApiError) → is_not_found e ≡ true → Reads (failed e) none

abbrev pub with_conflict : Request → Coordinator → Coordinator
with_conflict q c = record c { metrics = record_cas_conflict q.operation c.metrics }

-- A coordinator and an outside state with which the store is read, for a request that came to `c` in `w`.
pub data Reaches {W : Type 0} (env : Cluster W) (q : Request) (c : Coordinator) (w : W)
    : Coordinator → W → Type 0 where
  at_first :
      (lease : Option Lease)
      → Reads (env.cache_get q.name w) lease
      → Reaches env q c w (look env lease from_cache c w).0 w
  after_conflict :
      {d : Coordinator} {asked : W}
      → Reaches env q c w d asked
      → (reply : Reply) (world after : W) (lease : Option Lease) (e : ApiError)
      → env.get q.name asked ≡ (reply, world)
      → Reads reply lease
      → write env q lease (look env lease from_store d world).0 world ≡ (failed e, after)
      → is_lost_race e ≡ true
      → Reaches env q c w (with_conflict q (look env lease from_store d world).0) after
