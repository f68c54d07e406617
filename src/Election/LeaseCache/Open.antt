-- ===== src/Election/LeaseCache/Open.antt =====
-- A cache of apis/election/kubernetes.go that is ready has an open watch.
use datakit_operator.Common.{
  ℕ, suc, ◌≤◌, ◌≡◌, refl, Bool, true, false, ◌&&◌, arith, eqb, any, Bool-cases, inl, inr,
}
use mathlib.Core.Bool.{false≢true}
use datakit_operator.Election.LeaseCache.{
  no_call, System, start, begin_list, begin_watch, watch_opened, stop, run_returned, ready, Step,
  starts, lists, has_listed, watches, has_failed, has_opened, stops, syncs, returns, Reachable,
  at_first, then_steps,
}

-- The informer runs, is in no call, and has not stopped the watch that it was given last.
abbrev pub Watches : System → Type 0
Watches s =
    (s.informer.is_running ≡ true)
    × (s.informer.call ≡ no_call)
    × (any (eqb s.informer.given) s.informer.open_watches ≡ true)

-- `Run` is called with the first use of `startOnce` only.
abbrev RunsOnce : Bool → ℕ → Type 0
RunsOnce false runs = runs ≡ 0
RunsOnce true runs = runs ≡ 1

abbrev IsSound : System → Type 0
IsSound s = RunsOnce s.cache.start_once s.informer.runs × (s.cache.watch_ready ≡ true → Watches s)

eqb_refl : (n : ℕ) → eqb n n ≡ true
eqb_refl n = ground arith

Step-IsSound : (s t : System) → Step s t → IsSound s → IsSound t
unfolding start begin_list begin_watch watch_opened stop run_returned
Step-IsSound s _ starts (once, watching) = elim (Bool-cases s.cache.start_once) [
  | inl used ↦ rw used (rw used at once, watching)
  | inr unused ↦
      rw unused (omega (arith, rw unused at once), λ h. (refl, (watching h).1, (watching h).2))
]
Step-IsSound s _ (lists running idle) (once, watching) = (once, λ h. absurd (false≢true h))
Step-IsSound s _ (has_listed call) (once, watching) =
    (once, λ h. ((watching h).0, refl, (watching h).2))
Step-IsSound s _ (watches running idle) (once, watching) = (once, λ h. absurd (false≢true h))
Step-IsSound s _ (has_failed call) (once, watching) =
    (once, λ h. ((watching h).0, refl, (watching h).2))
Step-IsSound s _ (has_opened running call) (once, watching) =
    (once, λ h. (running, refl, rw (eqb_refl (suc s.informer.given)) refl))
Step-IsSound s _ (stops i) (once, watching) = (once, λ h. absurd (false≢true h))
Step-IsSound s _ (syncs running) (once, watching) = (once, watching)
Step-IsSound s _ (returns running idle) (once, watching) = (once, λ h. absurd (false≢true h))

Reachable-IsSound : (s : System) → Reachable s → IsSound s
Reachable-IsSound _ at_first = (refl, λ h. absurd (false≢true h))
Reachable-IsSound _ (then_steps {s} {t} before step) =
    Step-IsSound s t step (Reachable-IsSound s before)

both : (a b : Bool) → (a && b) ≡ true → (a ≡ true) × (b ≡ true)
both true b h = (refl, h)
both false b h = absurd (false≢true h)

at_most_one : (used : Bool) (runs : ℕ) → RunsOnce used runs → runs ≤ 1
at_most_one false runs h = omega (arith, h)
at_most_one true runs h = omega (arith, h)

-- In every state that starts of the cache, calls of its two functions one at a time, stops of
-- watches, synchronizations and the end of the informer's run can lead to, the informer was run
-- at most once; and if the cache is ready, then the informer has synced, it runs, no list or
-- watch call is under way, and the watch that was opened last has not been stopped.
pub Reachable-ready :
    (s : System)
    → Reachable s
    → (s.informer.runs ≤ 1) × (ready s ≡ true → (s.informer.has_synced ≡ true) × Watches s)
unfolding ready
Reachable-ready s r =
    let (once, watching) = Reachable-IsSound s r in
    (
      at_most_one s.cache.start_once s.informer.runs once,
      λ h.
          let (has_synced, watch_ready) = both s.informer.has_synced s.cache.watch_ready h in
          (has_synced, watching watch_ready),
    )
