-- ===== src/Election/Coordinator/Calls.antt =====
-- The loop of apis/election/coordinator.go ends: how often it calls the store, and what it answers
-- when every write loses its race.
use datakit_operator.Common.{
  not, ◌&&◌, ◌||◌, ◌==◌, ℕ, zero, suc, ◌+◌, ◌≤◌, Option, none, some, String, ltb, arith, Bool-cases,
  inl, inr,
}
use datakit_operator.Election.Lease.{Lease, holder}
use datakit_operator.Election.Metrics.{is_campaign}
use datakit_operator.Election.Observation.{from_cache, from_store}
use datakit_operator.Election.Cluster.{Reply, found, failed, Cluster, is_not_found, is_lost_race}
use datakit_operator.Election.Coordinator.{
  Coordinator, Request, is_defeated, look, write, Attempt, after_write, proceed, after_get, attempt,
  attempts, after_cache, cached, elect,
}

-- A count of calls to the store, which a read raises by `a` at most and a write by `b` at most.
abbrev pub Counts : {W : Type 0} → Cluster W → (W → ℕ) → ℕ → ℕ → Type 0
Counts {W} env calls a b =
    ((name : String) (w : W) → calls (env.get name w).1 ≤ calls w + a)
    × ((l : Lease) (w : W) → calls (env.create l w).1 ≤ calls w + b)
    × ((l : Lease) (w : W) → calls (env.update l w).1 ≤ calls w + b)

-- What a loop costs that has so many attempts to write left.
abbrev cost : ℕ → ℕ → ℕ → ℕ
cost a b zero = a
cost a b (suc left) = a + (b + cost a b left)

module _ {W : Type 0} (env : Cluster W) (calls : W → ℕ) (a b : ℕ)
    (counts : Counts env calls a b) where
  write-calls :
      (q : Request) (lease : Option Lease) (c : Coordinator) (w : W)
      → calls (write env q lease c w).1 ≤ calls w + b
  unfolding write
  write-calls q none c w = counts.1 _ w
  write-calls q (some l) c w = counts.2 _ w

  after_write-calls :
      (retry : Attempt env) (q : Request) (lease : Option Lease) (c : Coordinator) (n : ℕ)
      (out : Reply × W)
      → ((c' : Coordinator) (w : W) → calls (retry c' w).2 ≤ calls w + n)
      → calls (after_write env retry q lease c out).2 ≤ calls out.1 + n
  unfolding after_write
  after_write-calls retry q lease c n (found u, w) h = omega arith
  after_write-calls retry q lease c n (failed e, w) h = elim (Bool-cases (is_lost_race e)) [
    | inl lost ↦ rw lost (h _ w)
    | inr other ↦ rw other (omega arith)
  ]

  -- An attempt with n more calls behind its retry makes a read and a write of its own.
  abbrev Within : Request → Option (Attempt env) → ℕ → Type 0
  Within q next n =
      (lease : Option Lease) (c : Coordinator) (w : W)
      → calls (proceed env next q lease c w).2 ≤ calls w + n

  attempt-calls :
      (next : Option (Attempt env)) (q : Request) (c : Coordinator) (n : ℕ) (out : Reply × W)
      → Within q next n
      → calls (attempt env next q c out).2 ≤ calls out.1 + n
  unfolding attempt after_get
  attempt-calls next q c n (found l, w) h =
      elim (Bool-cases (
        is_defeated q.operation (ltb 0 (look env (some l) from_store c w).1) (holder (some l))
          q.id)) [ inl beaten ↦ rw beaten (omega arith) | inr free ↦ rw free (h (some l) _ w) ]
  attempt-calls next q c n (failed e, w) h = elim (Bool-cases (is_not_found e)) [
    | inr other ↦ rw other (omega arith)
    | inl gone ↦
        rw gone
          (elim (Bool-cases
            (is_defeated q.operation (ltb 0 (look env none from_store c w).1) (holder none) q.id)) [
              | inl beaten ↦ rw beaten (omega arith)
              | inr free ↦ rw free (h none _ w)
            ])
  ]

  attempts-calls :
      (left : ℕ) (q : Request) (c : Coordinator) (w : W)
      → calls (attempts env left q c w).2 ≤ calls w + cost a b left
  unfolding attempts proceed
  attempts-calls zero q c w = omega (
    arith,
    attempt-calls none q c 0 (env.get q.name w) (λ lease c' w'. omega arith),
    counts.0 q.name w,
  )
  attempts-calls (suc left) q c w =
      let retry : (c' : Coordinator) (w' : W)
          → calls (attempts env left q c' w').2 ≤ calls w' + cost a b left =
        λ c' w'. omega (arith, attempts-calls left q c' w') in
      let later : Within q (some (attempts env left q)) (b + cost a b left) = λ lease c' w'. omega (
        arith,
        after_write-calls (attempts env left q) q lease c' (cost a b left) (write env q lease c' w')
            retry,
        write-calls q lease c' w',
      ) in
      omega (
        arith,
        attempt-calls (some (attempts env left q)) q c (b + cost a b left) (env.get q.name w) later,
        counts.0 q.name w,
      )

  after_cache-calls :
      (q : Request) (lease : Option Lease) (c : Coordinator) (w : W)
      → calls (after_cache env q lease c w).2 ≤ calls w + cost a b 5
  unfolding after_cache
  after_cache-calls q lease c w =
      let held =
        ltb 0 (look env lease from_cache c w).1
        && (is_campaign q.operation || not (holder lease == q.id)) in
      elim (Bool-cases held) [
        | inl beaten ↦ rw beaten (omega arith)
        | inr free ↦ rw free (omega (arith, attempts-calls 5 q (look env lease from_cache c w).0 w))
      ]

  cached-calls :
      (q : Request) (c : Coordinator) (w : W) (out : Reply)
      → calls (cached env q c w out).2 ≤ calls w + cost a b 5
  cached-calls q c w (found l) = after_cache-calls q (some l) c w
  cached-calls q c w (failed e) = elim (Bool-cases (is_not_found e)) [
    | inl gone ↦ rw gone (after_cache-calls q none c w)
    | inr other ↦ rw other (omega arith)
  ]

  elect-cost :
      (q : Request) (c : Coordinator) (w : W) → calls (elect env q c w).2 ≤ calls w + cost a b 5
  unfolding elect
  elect-cost q c w = elim (Bool-cases (env.cache_ready w)) [
    | inl ready ↦ rw ready (cached-calls q c w (env.cache_get q.name w))
    | inr waiting ↦ rw waiting (omega arith)
  ]

-- Given a count that a get of the store raises by at most one and a create or an update does not
-- raise, and a count that a create or an update raises by at most one and a get does not raise,
-- one elect raises the first by at most six and the second by at most five: it makes at most six
-- reads and five writes, however often the writes conflict.
pub elect-calls :
    {W : Type 0} (env : Cluster W) (reads writes : W → ℕ)
    → Counts env reads 1 0
    → Counts env writes 0 1
    → (q : Request) (c : Coordinator) (w : W)
    → (reads (elect env q c w).2 ≤ reads w + 6) × (writes (elect env q c w).2 ≤ writes w + 5)
elect-calls env reads writes reading writing q c w =
    (elect-cost env reads 1 0 reading q c w, elect-cost env writes 0 1 writing q c w)
