-- ===== src/Election/Coordinator/History.antt =====
-- The versions that a store has held of one Lease, under the writes of any number of operators with the
-- coordinator of apis/election/coordinator.go. The store accepts an update only if it is based on the
-- version that is stored, so each version is made of the one before; and it stamps a new version.
use datakit_operator.Common.{
  ℕ, suc, ◌+◌, ◌<◌, ◌≤◌, ◌≡◌, refl, sym, ap, ◌∙◌, some, Bool, true, false, String, if◌then◌else◌,
  arith, if-cases,
}
use datakit_operator.Common.Int.{ℤ, pos, negsuc, int32, sucz}
use datakit_operator.Election.Lease.{Lease, holder, epoch, acquire_lease, renew_lease}
use datakit_operator.Election.Metrics.{Operation, success, is_campaign}
use datakit_operator.Election.Cluster.{Cluster}
use datakit_operator.Election.Coordinator.{Coordinator, Request, result, write}

-- What a request sends for the lease that it read.
abbrev pub sent : Request → Lease → ℕ → Lease
sent q l now = if is_campaign q.operation then acquire_lease l q.id now else renew_lease l now

pub write-sent :
    {W : Type 0} (env : Cluster W) (q : Request) (l : Lease) (c : Coordinator) (w : W)
    → write env q (some l) c w ≡ env.update (sent q l (env.now w)) w
unfolding write
write-sent env q l c w = refl

abbrev pub stamp : String → Lease → Lease
stamp version l = record l { resource_version = version }

abbrev pub count : Operation → ℕ → ℕ
count op n = if is_campaign op then suc n else n

-- The second version is the first one or a later one, with so many campaigns accepted between them.
pub data Later (a : Lease) : ℕ → Lease → Type 0 where
  same : Later a 0 a
  accepted :
      {n : ℕ} {b : Lease}
      → Later a n b
      → (q : Request) (now : ℕ) (version : String)
      → Later a (count q.operation n) (stamp version (sent q b now))

-- The epoch has grown by the campaigns, and without one the holder is the same.
abbrev Fenced : Lease → ℕ → ℕ → Lease → Type 0
Fenced a e n b = (epoch (some b) ≡ pos (e + n)) × (n ≡ 0 → holder (some b) ≡ holder (some a))

int32-sucz : (e : ℕ) → e < 2147483647 → int32 (sucz (pos e)) ≡ pos (e + 1)
int32-sucz e h = ground arith

step-Fenced :
    (a b : Lease) (e n now : ℕ) (q : Request) (version : String) (c : Bool)
    → is_campaign q.operation ≡ c
    → e + count q.operation n < 2147483648
    → Fenced a e n b
    → Fenced a e (count q.operation n) (stamp version (sent q b now))
unfolding epoch holder acquire_lease renew_lease
step-Fenced a b e n now q version true op small (grown, kept) = rw op (
  ap (λ z. int32 (sucz z)) grown
      ∙ int32-sucz (e + n) (omega (arith, rw op at small))
      ∙ ap pos (omega arith),
  λ none_there. absurd (omega (arith, none_there)),
)
step-Fenced a b e n now q version false op small (grown, kept) = rw op (grown, kept)

count-grows : (op : Operation) (n : ℕ) → n ≤ count op n
count-grows op n = if-cases (λ m. n ≤ m) (is_campaign op) (suc n) n (omega arith) (omega arith)

pub Later-Fenced :
    (a : Lease) (e n : ℕ) (b : Lease)
    → Later a n b
    → epoch (some a) ≡ pos e
    → e + n < 2147483648
    → Fenced a e n b
Later-Fenced a e _ _ same start small = (start ∙ ap pos (omega arith), λ n. refl)
Later-Fenced a e _ _ (accepted {n} {b} later q now version) start small =
    step-Fenced a b e n now q version (is_campaign q.operation) refl small
      (Later-Fenced a e n b later start (omega (arith, small, count-grows q.operation n)))

pos_inj : (m n : ℕ) → pos m ≡ pos n → m ≡ n
pos_inj m n h = ap magnitude h
  where
    magnitude : ℤ → ℕ
    magnitude (pos k) = k
    magnitude (negsuc k) = k

-- Let a store hold a lease with an epoch that is not negative, and later, after writes of any
-- number of campaigns and heartbeats that were each accepted over the version before, another
-- version of it, with the epoch small enough that the campaigns between them do not wrap it
-- around. Then two answers of success that show the two versions and give the same epoch name the
-- same incumbent: no epoch has two leaders.
pub epoch-names_holder :
    (a : Lease) (e n : ℕ) (b : Lease) (q r : Request)
    → Later a n b
    → epoch (some a) ≡ pos e
    → e + n < 2147483648
    → (result success q.namespace q.id (some a) true).epoch
      ≡ (result success r.namespace r.id (some b) true).epoch
    → (result success q.namespace q.id (some a) true).incumbency_id
      ≡ (result success r.namespace r.id (some b) true).incumbency_id
unfolding result
epoch-names_holder a e n b q r later start small equal =
    let (grown, kept) = Later-Fenced a e n b later start small in
    let none_there : e ≡ e + n = pos_inj e (e + n) (sym start ∙ equal ∙ grown) in
    sym (kept (omega (arith, none_there)))
