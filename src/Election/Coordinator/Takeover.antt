-- ===== src/Election/Coordinator/Takeover.antt =====
-- A lease whose term is over can be taken (apis/election/coordinator.go).
use datakit_operator.Common.{
  ℕ, ◌≡◌, refl, Option, none, some, true, false, not, ◌&&◌, ◌||◌, String, ◌==◌, ltb, arith,
}
use datakit_operator.Election.Lease.{Lease, holder, max_cas_attempts}
use datakit_operator.Election.Observation.{from_cache, from_store}
use datakit_operator.Election.Metrics.{campaign, success, is_campaign}
use datakit_operator.Election.Cluster.{Reply, found, Cluster}
use datakit_operator.Election.Coordinator.{
  Answer, replied, Coordinator, Request, result, is_defeated, look, write, Attempt, after_write,
  proceed, after_get, attempt, attempts, after_cache, cached, elect,
}
use datakit_operator.Election.Coordinator.Rounds.{Reads, present, missing}

module _ {W : Type 0} (env : Cluster W) (q : Request) (op : q.operation ≡ campaign) where
  abbrev Wins : Answer → Lease → Type 0
  Wins a u = a ≡ replied (result success q.namespace q.id (some u) true)

  -- The store's lease speaks against nobody and the write is accepted.
  pub record IsOpen (c : Coordinator) (w : W) (lease : Option Lease) (u : Lease) (after : W)
      : Type 0 where
    pub expired : (look env lease from_store c w).1 ≡ 0
    pub accepted : write env q lease (look env lease from_store c w).0 w ≡ (found u, after)

  not_defeated :
      (left : ℕ) (h id : String) → left ≡ 0 → is_defeated q.operation (ltb 0 left) h id ≡ false
  not_defeated left h id e = ground arith

  proceed-Wins :
      (retry : Attempt env) (c : Coordinator) (w after : W) (lease : Option Lease) (u : Lease)
      → write env q lease c w ≡ (found u, after)
      → Wins (proceed env (some retry) q lease c w).0 u
  unfolding proceed after_write result
  proceed-Wins retry c w after lease u accepted = rw accepted refl

  after_get-Wins :
      (retry : Attempt env) (c : Coordinator) (w after : W) (lease : Option Lease) (u : Lease)
      → IsOpen c w lease u after
      → Wins (after_get env (some retry) q lease c w).0 u
  unfolding after_get
  after_get-Wins retry c w after lease u h =
      rw (not_defeated (look env lease from_store c w).1 (holder lease) q.id h.expired)
        (proceed-Wins retry (look env lease from_store c w).0 w after lease u h.accepted)

  attempt-Wins :
      (retry : Attempt env) (c : Coordinator) (w after : W) (reply : Reply) (lease : Option Lease)
      (u : Lease)
      → Reads reply lease
      → IsOpen c w lease u after
      → Wins (attempt env (some retry) q c (reply, w)).0 u
  unfolding attempt
  attempt-Wins retry c w after reply lease u (present l) h =
      after_get-Wins retry c w after (some l) u h
  attempt-Wins retry c w after reply lease u (missing e gone) h =
      rw gone (after_get-Wins retry c w after none u h)

  attempts-Wins :
      (c : Coordinator) (asked w after : W) (reply : Reply) (lease : Option Lease) (u : Lease)
      → env.get q.name asked ≡ (reply, w)
      → Reads reply lease
      → IsOpen c w lease u after
      → Wins (attempts env max_cas_attempts q c asked).0 u
  unfolding attempts
  attempts-Wins c asked w after reply lease u read shows h =
      rw read (attempt-Wins (attempts env 4 q) c w after reply lease u shows h)

  after_cache-Wins :
      (cached_lease : Option Lease) (c : Coordinator) (asked w after : W) (reply : Reply)
      (lease : Option Lease) (u : Lease)
      → (look env cached_lease from_cache c asked).1 ≡ 0
      → env.get q.name asked ≡ (reply, w)
      → Reads reply lease
      → IsOpen (look env cached_lease from_cache c asked).0 w lease u after
      → Wins (after_cache env q cached_lease c asked).0 u
  unfolding after_cache
  after_cache-Wins cached_lease c asked w after reply lease u idle read shows h =
      let free : (ltb 0 (look env cached_lease from_cache c asked).1
            && (is_campaign q.operation || not (holder cached_lease == q.id)))
          ≡ false =
        ground arith in
      rw free (
        attempts-Wins (look env cached_lease from_cache c asked).0 asked w after reply lease u read
          shows h)

  cached-Wins :
      (c : Coordinator) (asked w after : W) (out reply : Reply) (cached_lease lease : Option Lease)
      (u : Lease)
      → Reads out cached_lease
      → (look env cached_lease from_cache c asked).1 ≡ 0
      → env.get q.name asked ≡ (reply, w)
      → Reads reply lease
      → IsOpen (look env cached_lease from_cache c asked).0 w lease u after
      → Wins (cached env q c asked out).0 u
  cached-Wins c asked w after out reply cached_lease lease u (present l) =
      after_cache-Wins (some l) c asked w after reply lease u
  cached-Wins c asked w after out reply cached_lease lease u (missing e gone) =
      rw gone (after_cache-Wins none c asked w after reply lease u)

  -- A campaign whose cache is ready and answers, and that meets in the cache and in the store a
  -- lease that is missing or has no time left, and whose first write the store accepts,
  -- succeeds: the reply is made of the lease that the store returned.
  pub campaign_takes_over :
      (c : Coordinator) (asked w after : W) (reply : Reply) (cached_lease lease : Option Lease)
      (u : Lease)
      → env.cache_ready asked ≡ true
      → Reads (env.cache_get q.name asked) cached_lease
      → (look env cached_lease from_cache c asked).1 ≡ 0
      → env.get q.name asked ≡ (reply, w)
      → Reads reply lease
      → IsOpen (look env cached_lease from_cache c asked).0 w lease u after
      → (elect env q c asked).0 ≡ replied (result success q.namespace q.id (some u) true)
  unfolding elect
  campaign_takes_over c asked w after reply cached_lease lease u ready cached_as idle read shows h =
      rw ready (
        cached-Wins c asked w after (env.cache_get q.name asked) reply cached_lease lease u
          cached_as idle read shows h)
