-- ===== src/Election/Coordinator.antt =====
-- apis/election/coordinator.go: the campaign and the heartbeat over a store with compare-and-swap.
-- A method returns its answer, the coordinator and the outside state.
pub mod Rounds
pub mod Backed
pub mod Leads
pub mod Calls
pub mod Takeover
pub mod Term
pub mod History
use datakit_operator.Common.{
  ℕ, zero, suc, ◌<◌, Option, none, some, Bool, true, false, not, ◌&&◌, ◌||◌, String, ◌==◌,
  if◌then◌else◌, ltb,
}
use datakit_operator.Common.Int.{ℤ, pos}
use datakit_operator.Election.Lease.{
  Lease, lease_duration, request_interval, max_cas_attempts, holder, epoch, acquire_lease,
  new_lease, renew_lease,
}
use datakit_operator.Election.Observation.{
  ObservationSource, from_cache, from_store, LeaseObservations, remaining,
}
use datakit_operator.Election.Metrics.{
  Operation, campaign, heartbeat, informer, Status, success, defeat, error, Transition,
  first_acquire, lease_expired, is_campaign, ElectionCounters, record_transition,
  record_storage_error, record_cas_conflict,
}
use datakit_operator.Election.Cluster.{
  ApiError, not_found, conflict, already_exists, forbidden, other_error, Reply, found, failed,
  Cluster, is_not_found, is_forbidden, is_lost_race,
}

pub record Result : Type 0 where
  pub status : Status
  pub namespace : String
  pub id : String
  pub incumbency_id : String
  pub error_msg : String
  pub error_code : String
  pub interval : ℕ
  pub lease_duration : ℤ
  pub epoch : ℤ

-- `errCacheNotReady`, `errStorage` and `errForbidden`
pub data ElectError : Type 0 where
  cache_not_ready storage_unavailable access_forbidden : ElectError

pub data Answer : Type 0 where
  replied : Result → Answer
  refused : ElectError → Answer

pub record Coordinator : Type 0 where
  pub namespace : String
  pub metrics : ElectionCounters
  pub observations : LeaseObservations

-- The arguments of `elect`, with the name of the lease in place of the token.
pub record Request : Type 0 where
  pub operation : Operation
  pub name : String
  pub namespace : String
  pub id : String

abbrev duration_of : Option Lease → ℤ
duration_of none = pos lease_duration
duration_of (some l) = elim (l.lease_duration_seconds) [ none ↦ pos lease_duration | some d ↦ d ]

unfoldable pub result : Status → String → String → Option Lease → Bool → Result
unfolding holder epoch
result status namespace id lease active = record {
  status = status;
  namespace = namespace;
  id = id;
  incumbency_id = if active then holder lease else "";
  error_msg = "";
  error_code = "";
  interval = request_interval;
  lease_duration = duration_of lease;
  epoch = epoch lease;
}

unfoldable pub storage_error : Operation → ApiError → Coordinator → Answer × Coordinator
unfolding record_storage_error
storage_error op cause c = (
  refused (if is_forbidden cause then access_forbidden else storage_unavailable),
  record c { metrics = record_storage_error op c.metrics },
)

-- The answer is defeat: the lease is active for another campaign, or a heartbeat's term is over.
abbrev pub is_defeated : Operation → Bool → String → String → Bool
is_defeated campaign active h id = active
is_defeated heartbeat active h id = not active || not (h == id)
is_defeated informer active h id = false

module _ {W : Type 0} (env : Cluster W) where
  open env use {get, create, update, cache_ready, cache_get, now, elapsed}

  -- The coordinator's `remaining`, at the clock of this moment.
  unfoldable pub look : Option Lease → ObservationSource → Coordinator → W → Coordinator × ℕ
  unfolding remaining
  look lease source c w =
      let (o, left) = remaining c.observations lease source (elapsed w) in
      (record c { observations = o }, left)

  -- The write of one attempt.
  unfoldable pub write : Request → Option Lease → Coordinator → W → Reply × W
  unfolding new_lease acquire_lease renew_lease
  write q none c w = create (new_lease c.namespace q.name q.id (now w)) w
  write q (some l) c w =
      update
        (if is_campaign q.operation then acquire_lease l q.id (now w) else renew_lease l (now w)) w

  abbrev transition_of : Option Lease → Transition
  transition_of none = first_acquire
  transition_of (some l) = lease_expired

  abbrev count_transition : Operation → Option Lease → ElectionCounters → ElectionCounters
  count_transition op lease m =
      if is_campaign op then record_transition (transition_of lease) m else m

  abbrev pub Attempt : Type 0
  Attempt = Coordinator → W → Answer × Coordinator × W

  after_write :
      Attempt → Request → Option Lease → Coordinator → Reply × W → Answer × Coordinator × W
  unfolding result storage_error look record_transition record_cas_conflict
  after_write retry q lease c (found u, w) =
      let (c', _) = look (some u) from_store c w in
      (
        replied (result success q.namespace q.id (some u) true),
        record c' { metrics = count_transition q.operation lease c'.metrics },
        w,
      )
  after_write retry q lease c (failed e, w) =
      let again = retry (record c { metrics = record_cas_conflict q.operation c.metrics }) w in
      let (answer, c') = storage_error q.operation e c in
      if is_lost_race e then again else (answer, c', w)

  -- Write, or stop after the last conflict: `none` is the attempt numbered `maxCASAttempts`.
  proceed : Option Attempt → Request → Option Lease → Coordinator → W → Answer × Coordinator × W
  unfolding after_write write storage_error
  proceed none q lease c w =
      let (answer, c') = storage_error q.operation other_error c in (answer, c', w)
  proceed (some retry) q lease c w = after_write retry q lease c (write q lease c w)

  after_get : Option Attempt → Request → Option Lease → Coordinator → W → Answer × Coordinator × W
  unfolding proceed look result
  after_get next q lease c w =
      let (c', left) = look lease from_store c w in
      let active = ltb 0 left in
      if is_defeated q.operation active (holder lease) q.id
      then (replied (result defeat q.namespace q.id lease active), c', w)
      else proceed next q lease c' w

  -- One round of the loop.
  attempt : Option Attempt → Request → Coordinator → Reply × W → Answer × Coordinator × W
  unfolding after_get storage_error
  attempt next q c (found l, w) = after_get next q (some l) c w
  attempt next q c (failed e, w) =
      let (answer, c') = storage_error q.operation e c in
      if is_not_found e then after_get next q none c w else (answer, c', w)

  -- The loop, by the number of attempts that are left to write.
  attempts : ℕ → Request → Attempt
  unfolding attempt
  attempts zero q c w = attempt none q c (get q.name w)
  attempts (suc left) q c w = attempt (some (attempts left q)) q c (get q.name w)

  after_cache : Request → Option Lease → Coordinator → W → Answer × Coordinator × W
  unfolding attempts look result
  after_cache q lease c w =
      let (c', left) = look lease from_cache c w in
      if ltb 0 left && (is_campaign q.operation || not (holder lease == q.id))
      then (replied (result defeat q.namespace q.id lease true), c', w)
      else attempts max_cas_attempts q c' w

  abbrev cached : Request → Coordinator → W → Reply → Answer × Coordinator × W
  cached q c w (found l) = after_cache q (some l) c w
  cached q c w (failed e) =
      let (answer, c') = storage_error q.operation e c in
      if is_not_found e then after_cache q none c w else (answer, c', w)

  unfoldable pub elect : Request → Coordinator → W → Answer × Coordinator × W
  unfolding after_cache storage_error
  elect q c w =
      if cache_ready w then cached q c w (cache_get q.name w) else (refused cache_not_ready, c, w)
