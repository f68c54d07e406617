-- ===== src/Election/Coordinator/Leads.antt =====
-- Whom a success of apis/election/coordinator.go names, and with which epoch.
use datakit_operator.Common.{
  ◌<◌, ◌≡◌, sym, ap, ◌∙◌, ◌⊎◌, inl, inr, Option, none, some, true, arith, if◌then◌else◌,
}
use datakit_operator.Common.Int.{ℤ, int32, sucz}
use datakit_operator.Election.Lease.{
  Lease, text_or_empty, int_or_zero, holder, epoch, new_lease, acquire_lease, renew_lease,
}
use datakit_operator.Election.Observation.{from_store, remaining}
use datakit_operator.Election.Metrics.{Operation, campaign, heartbeat, success, is_campaign}
use datakit_operator.Election.Cluster.{found, Cluster}
use datakit_operator.Election.Coordinator.{
  Result, replied, Coordinator, Request, result, look, write, elect,
}
use datakit_operator.Election.Coordinator.Backed.{IsBacked, elect-IsBacked, heartbeat-success}

-- The same holder and the same count of transitions.
abbrev pub SameTerm : Lease → Lease → Type 0
SameTerm u l = (u.holder_identity ≡ l.holder_identity) × (u.lease_transitions ≡ l.lease_transitions)

abbrev pub epoch_after : Operation → ℤ → ℤ
epoch_after op z = if is_campaign op then int32 (sucz z) else z

-- The store answers a write that it accepts with the holder and the transitions that it was sent.
module _ {W : Type 0} (env : Cluster W)
    (created : (l u : Lease) (w after : W) → env.create l w ≡ (found u, after) → SameTerm u l)
    (updated : (l u : Lease) (w after : W) → env.update l w ≡ (found u, after) → SameTerm u l) where
  -- What a lease names whose term is that of another.
  abbrev Names : Lease → Lease → Type 0
  Names u l = (holder (some u) ≡ holder (some l)) × (epoch (some u) ≡ epoch (some l))

  same-Names : (u l : Lease) → SameTerm u l → Names u l
  unfolding holder epoch
  same-Names u l (h, t) = (ap text_or_empty h, ap int_or_zero t)

  campaign-Names :
      (q : Request) (lease : Option Lease) (c : Coordinator) (w : W) (u : Lease) (after : W)
      → q.operation ≡ campaign
      → write env q lease c w ≡ (found u, after)
      → (holder (some u) ≡ q.id) × (epoch (some u) ≡ int32 (sucz (epoch lease)))
  unfolding write holder epoch
  campaign-Names q none c w u after op e =
      same-Names u (new_lease c.namespace q.name q.id (env.now w))
        (created (new_lease c.namespace q.name q.id (env.now w)) u w after e)
  campaign-Names q (some l) c w u after op e =
      same-Names u (acquire_lease l q.id (env.now w))
        (updated (acquire_lease l q.id (env.now w)) u w after (rw op at e))

  heartbeat-Names :
      (q : Request) (lease : Option Lease) (c : Coordinator) (w : W) (u : Lease) (after : W)
      → q.operation ≡ heartbeat
      → 0 < (look env lease from_store c w).1
      → write env q lease (look env lease from_store c w).0 w ≡ (found u, after)
      → (holder (some u) ≡ holder lease) × (epoch (some u) ≡ epoch lease)
  unfolding write look remaining holder epoch
  heartbeat-Names q none c w u after op left e = absurd (omega (arith, left))
  heartbeat-Names q (some l) c w u after op left e =
      same-Names u (renew_lease l (env.now w))
        (updated (renew_lease l (env.now w)) u w after (rw op at e))

  shown-Names :
      (q : Request) (u : Lease) (r : Result)
      → r ≡ result success q.namespace q.id (some u) true
      → (r.incumbency_id ≡ holder (some u)) × (r.epoch ≡ epoch (some u))
  unfolding result
  shown-Names q u r e = (ap Result.incumbency_id e, ap Result.epoch e)

  -- If the store answers each write that it accepts with the holder and the count of
  -- transitions that it was sent, then a campaign or a heartbeat that is answered with success
  -- is told that the sender is the leader, and its epoch: after a campaign the 32-bit successor
  -- of the epoch that the round of the accepted write had read from the store, where a missing
  -- lease counts as epoch 0, and after a heartbeat the epoch that was read.
  pub success-names_sender :
      (q : Request) (c : Coordinator) (w : W) (r : Result)
      → (q.operation ≡ campaign) ⊎ (q.operation ≡ heartbeat)
      → (elect env q c w).0 ≡ replied r
      → r.status ≡ success
      → (b : IsBacked env q c w r) × (r.incumbency_id ≡ q.id)
        × (r.epoch ≡ epoch_after q.operation (epoch b.lease))
  success-names_sender q c w r (inl op) eq st =
      let b = elect-IsBacked env q c w r eq st in
      let (name, number) = shown-Names q b.written r b.shown in
      let (names, counts) =
        campaign-Names q b.lease (look env b.lease from_store b.coordinator b.world).0 b.world
          b.written b.after op b.accepted in
      (b, name ∙ names, number ∙ counts ∙ sym (ap (λ o. epoch_after o (epoch b.lease)) op))
  success-names_sender q c w r (inr op) eq st =
      let (b, sender, left) = heartbeat-success env q c w r op eq st in
      let (name, number) = shown-Names q b.written r b.shown in
      let (names, counts) =
        heartbeat-Names q b.lease b.coordinator b.world b.written b.after op left b.accepted in
      (b, name ∙ names ∙ sender, number ∙ counts ∙ sym (ap (λ o. epoch_after o (epoch b.lease)) op))
