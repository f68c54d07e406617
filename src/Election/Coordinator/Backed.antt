-- ===== src/Election/Coordinator/Backed.antt =====
-- A success of apis/election/coordinator.go rests on a write that the store accepted.
use datakit_operator.Common.{
  ℕ, zero, suc, ◌<◌, ◌≡◌, refl, sym, Option, none, some, Bool, true, false, not, ◌&&◌, ◌||◌, String,
  ◌==◌, ltb, arith, Bool-cases, inl, inr, eq_iff,
}
use mathlib.Core.Path.{subst}
use datakit_operator.Election.Lease.{Lease, max_cas_attempts, holder}
use datakit_operator.Election.Observation.{from_cache, from_store}
use datakit_operator.Election.Metrics.{
  Operation, campaign, heartbeat, informer, success, defeat, is_campaign,
}
use datakit_operator.Election.Cluster.{
  ApiError, other_error, Reply, found, failed, Cluster, is_not_found, is_lost_race,
}
use datakit_operator.Election.Coordinator.Rounds.{
  Reads, present, missing, with_conflict, Reaches, at_first, after_conflict,
}
use datakit_operator.Election.Coordinator.{
  Result, Answer, replied, Coordinator, Request, result, storage_error, is_defeated, look, write,
  Attempt, after_write, proceed, after_get, attempt, attempts, after_cache, cached, elect,
}

not_defeated_campaign :
    (op : Operation) (left : ℕ) (h id : String)
    → op ≡ campaign
    → is_defeated op (ltb 0 left) h id ≡ false
    → left ≡ 0
not_defeated_campaign campaign left h id e d = ground arith
not_defeated_campaign _ left h id e d = cc

not_defeated_heartbeat :
    (op : Operation) (left : ℕ) (h id : String)
    → op ≡ heartbeat
    → is_defeated op (ltb 0 left) h id ≡ false
    → (h ≡ id) × (0 < left)
not_defeated_heartbeat heartbeat left h id e d = ground (arith, eq_iff h id)
not_defeated_heartbeat campaign left h id e d = cc
not_defeated_heartbeat informer left h id e d = cc

module _ {W : Type 0} (env : Cluster W) (q : Request) (c₀ : Coordinator) (w₀ : W) where
  -- The evidence behind a success: in a round of this very request the lease was read from the store,
  -- did not speak against the request, and the write made from it was accepted; the reply shows the
  -- lease that came back.
  pub record IsBacked (r : Result) : Type 0 where
    pub coordinator : Coordinator
    pub asked : W
    pub world : W
    pub after : W
    pub reply : Reply
    pub lease : Option Lease
    pub written : Lease
    pub reached : Reaches env q c₀ w₀ coordinator asked
    pub read : env.get q.name asked ≡ (reply, world)
    pub shows : Reads reply lease
    pub unopposed :
        is_defeated q.operation
          (ltb 0 (look env lease from_store coordinator world).1)
          (holder lease)
          q.id
        ≡ false
    pub accepted :
        write env q lease (look env lease from_store coordinator world).0 world
        ≡ (found written, after)
    pub shown : r ≡ result success q.namespace q.id (some written) true

  -- Every success that an answer reports is backed.
  abbrev Sound : Answer → Type 0
  Sound a = (r : Result) → a ≡ replied r → r.status ≡ success → IsBacked r

  abbrev SoundAttempt : Attempt env → Type 0
  SoundAttempt k = (c : Coordinator) (w : W) → Reaches env q c₀ w₀ c w → Sound (k c w).0

  refused-Sound : (e : ApiError) (c : Coordinator) → Sound (storage_error q.operation e c).0
  unfolding storage_error
  refused-Sound e c r eq st = cc

  defeat-Sound :
      (lease : Option Lease) (active : Bool)
      → Sound (replied (result defeat q.namespace q.id lease active))
  unfolding result
  defeat-Sound lease active r eq st = ground arith

  -- What a write that was accepted shows, and where one that lost its race goes on.
  abbrev Accepts : Reply × W → Type 0
  Accepts out =
      (u : Lease) (w : W)
      → out ≡ (found u, w)
      → IsBacked (result success q.namespace q.id (some u) true)

  abbrev GoesOn : Coordinator → Reply × W → Type 0
  GoesOn c out =
      (e : ApiError) (w : W)
      → out ≡ (failed e, w)
      → is_lost_race e ≡ true
      → Reaches env q c₀ w₀ (with_conflict q c) w

  after_write-Sound :
      (retry : Attempt env)
      → SoundAttempt retry
      → (lease : Option Lease) (c : Coordinator) (out : Reply × W) → Accepts out
      → GoesOn c out
      → Sound (after_write env retry q lease c out).0
  unfolding after_write
  after_write-Sound retry ih lease c (found u, w) backed goes_on r eq st =
      let shown : result success q.namespace q.id (some u) true ≡ r = cc in
      subst IsBacked shown (backed u w refl)
  after_write-Sound retry ih lease c (failed e, w) backed goes_on r eq st =
      elim (Bool-cases (is_lost_race e)) [
        | inl lost ↦ ih (with_conflict q c) w (goes_on e w refl lost) r (rw lost at eq) st
        | inr other ↦ refused-Sound e c r (rw other at eq) st
      ]

  proceed-Sound :
      (next : Option (Attempt env))
      → ((k : Attempt env) → next ≡ some k → SoundAttempt k)
      → (lease : Option Lease) (c : Coordinator) (w : W) → Accepts (write env q lease c w)
      → GoesOn c (write env q lease c w)
      → Sound (proceed env next q lease c w).0
  unfolding proceed
  proceed-Sound none ih lease c w backed goes_on = refused-Sound other_error c
  proceed-Sound (some k) ih lease c w backed goes_on =
      after_write-Sound k (ih k refl) lease c (write env q lease c w) backed goes_on

  after_get-Sound :
      (next : Option (Attempt env))
      → ((k : Attempt env) → next ≡ some k → SoundAttempt k)
      → (reply : Reply) (lease : Option Lease) (c : Coordinator) (asked world : W)
      → Reads reply lease
      → Reaches env q c₀ w₀ c asked
      → env.get q.name asked ≡ (reply, world)
      → Sound (after_get env next q lease c world).0
  unfolding after_get
  after_get-Sound next ih reply lease c asked world shows reached read =
      let active = ltb 0 (look env lease from_store c world).1 in
      elim (Bool-cases (is_defeated q.operation active (holder lease) q.id)) [
        | inl beaten ↦ rw beaten (defeat-Sound lease active)
        | inr unopposed ↦ rw unopposed (
            proceed-Sound next ih lease (look env lease from_store c world).0 world
              (λ u w accepted. record {
                coordinator = c;
                asked = asked;
                world = world;
                after = w;
                reply = reply;
                lease = lease;
                written = u;
                reached = reached;
                read = read;
                shows = shows;
                unopposed = unopposed;
                accepted = accepted;
                shown = refl;
              })
              (λ e w out lost. after_conflict reached reply world w lease e read shows out lost))
      ]

  attempt-Sound :
      (next : Option (Attempt env))
      → ((k : Attempt env) → next ≡ some k → SoundAttempt k)
      → (c : Coordinator) (asked : W) → Reaches env q c₀ w₀ c asked
      → (out : Reply × W) → env.get q.name asked ≡ out
      → Sound (attempt env next q c out).0
  unfolding attempt
  attempt-Sound next ih c asked reached (found l, w) read =
      after_get-Sound next ih (found l) (some l) c asked w (present l) reached read
  attempt-Sound next ih c asked reached (failed e, w) read = elim (Bool-cases (is_not_found e)) [
    | inl gone ↦
        rw gone (after_get-Sound next ih (failed e) none c asked w (missing e gone) reached read)
    | inr other ↦ rw other (refused-Sound e c)
  ]

  attempts-Sound : (left : ℕ) → SoundAttempt (attempts env left q)
  unfolding attempts
  attempts-Sound zero c w reached =
      attempt-Sound none (λ k h. cc) c w reached (env.get q.name w) refl
  attempts-Sound (suc left) c w reached =
      attempt-Sound (some (attempts env left q))
        (λ k h.
          let same : attempts env left q ≡ k = cc in subst SoundAttempt same (attempts-Sound left))
        c w reached (env.get q.name w) refl

  after_cache-Sound :
      (lease : Option Lease)
      → Reads (env.cache_get q.name w₀) lease
      → Sound (after_cache env q lease c₀ w₀).0
  unfolding after_cache
  after_cache-Sound lease cached_as =
      let held =
        ltb 0 (look env lease from_cache c₀ w₀).1
        && (is_campaign q.operation || not (holder lease == q.id)) in
      elim (Bool-cases held) [
        | inl beaten ↦ rw beaten (defeat-Sound lease true)
        | inr free ↦ rw free (
            attempts-Sound max_cas_attempts (look env lease from_cache c₀ w₀).0 w₀
              (at_first lease cached_as))
      ]

  cached-Sound : (out : Reply) → env.cache_get q.name w₀ ≡ out → Sound (cached env q c₀ w₀ out).0
  cached-Sound (found l) e =
      after_cache-Sound (some l) (subst (λ o. Reads o (some l)) (sym e) (present l))
  cached-Sound (failed e) same = elim (Bool-cases (is_not_found e)) [
    | inl gone ↦
        rw gone (after_cache-Sound none (subst (λ o. Reads o none) (sym same) (missing e gone)))
    | inr other ↦ rw other (refused-Sound e c₀)
  ]

  -- An `elect` that reports success has made a write, from a lease that it had just read in the
  -- store and that did not speak against the request, which the store accepted.
  pub elect-IsBacked :
      (r : Result) → (elect env q c₀ w₀).0 ≡ replied r → r.status ≡ success → IsBacked r
  unfolding elect
  elect-IsBacked = elim (Bool-cases (env.cache_ready w₀)) [
    | inl ready ↦ rw ready (cached-Sound (env.cache_get q.name w₀) refl)
    | inr waiting ↦ rw waiting (λ r eq st. cc)
  ]

  -- A campaign that is answered with success has read the store in one of its own rounds, made
  -- a write from the lease that it read, which the store accepted, and replies with what the
  -- store returned. By the observations with which this request came to that round, after its
  -- look at the cache and after its writes that lost their race, the lease that it read was
  -- missing or had no time left on this operator's clock.
  pub campaign-success :
      (r : Result)
      → q.operation ≡ campaign
      → (elect env q c₀ w₀).0 ≡ replied r
      → r.status ≡ success
      → (b : IsBacked r) × ((look env b.lease from_store b.coordinator b.world).1 ≡ 0)
  campaign-success r op eq st =
      let b = elect-IsBacked r eq st in
      (b, not_defeated_campaign q.operation _ (holder b.lease) q.id op b.unopposed)

  -- A heartbeat that is answered with success has read the store in one of its own rounds, made
  -- a write from the lease that it read, which the store accepted, and replies with what the
  -- store returned. The lease that it read had the sender as its holder and, by the
  -- observations with which this request came to that round, after its look at the cache and
  -- after its writes that lost their race, time left on this operator's clock.
  pub heartbeat-success :
      (r : Result)
      → q.operation ≡ heartbeat
      → (elect env q c₀ w₀).0 ≡ replied r
      → r.status ≡ success
      → (b : IsBacked r) × (holder b.lease ≡ q.id)
        × (0 < (look env b.lease from_store b.coordinator b.world).1)
  heartbeat-success r op eq st =
      let b = elect-IsBacked r eq st in
      let (same, active) =
        not_defeated_heartbeat q.operation _ (holder b.lease) q.id op b.unopposed in
      (b, same, active)
