-- ===== src/Election/LeaseCache.antt =====
-- apis/election/kubernetes.go: the cache of Leases and its readiness, which follows the calls that the
-- informer of client-go makes. The informer is what lies outside: it runs once it was started, makes one
-- call at a time, and stops each watch at most once.
pub mod Open
use datakit_operator.Common.{
  ℕ, suc, ◌≡◌, Bool, true, false, not, ◌&&◌, List, [], ◌∷◌, if◌then◌else◌, eqb,
}

-- `informerLeaseCache`: whether `startOnce` was used, and `watchReady`
pub record LeaseCache : Type 0 where
  pub start_once : Bool
  pub watch_ready : Bool

-- The call that the informer is in.
pub data Call : Type 0 where
  no_call list_call watch_call : Call

-- What is known of the informer: how often `Run` was called, whether it runs, whether it has synced, the
-- call that it is in, how many watches it was given, and which of them it has not stopped.
pub record Informer : Type 0 where
  pub runs : ℕ
  pub is_running : Bool
  pub has_synced : Bool
  pub call : Call
  pub given : ℕ
  pub open_watches : List ℕ

pub record System : Type 0 where
  pub cache : LeaseCache
  pub informer : Informer

abbrev pub initial : System
initial = record {
  cache = record { start_once = false; watch_ready = false };
  informer = record {
    runs = 0;
    is_running = false;
    has_synced = false;
    call = no_call;
    given = 0;
    open_watches = [];
  };
}

abbrev set_ready : Bool → LeaseCache → LeaseCache
set_ready b c = record c { watch_ready = b }

-- `Start`
unfoldable pub start : System → System
start s = if s.cache.start_once then s else record {
  cache = record (s.cache) { start_once = true };
  informer = record (s.informer) { runs = suc s.informer.runs; is_running = true };
}

-- The beginning of `ListFunc`, up to the call of the client.
unfoldable pub begin_list : System → System
begin_list s = record {
  cache = set_ready false s.cache;
  informer = record (s.informer) { call = list_call };
}

abbrev pub end_list : System → System
end_list s = record s { informer = record (s.informer) { call = no_call } }

-- The beginning of `WatchFunc`, up to the call of the client.
unfoldable pub begin_watch : System → System
begin_watch s = record {
  cache = set_ready false s.cache;
  informer = record (s.informer) { call = watch_call };
}

-- The end of `WatchFunc` after an error.
abbrev pub watch_failed : System → System
watch_failed s = record s { informer = record (s.informer) { call = no_call } }

-- The end of `WatchFunc` with a watch.
unfoldable pub watch_opened : System → System
watch_opened s = record {
  cache = set_ready true s.cache;
  informer = record (s.informer) {
    call = no_call;
    given = suc s.informer.given;
    open_watches = suc s.informer.given ∷ s.informer.open_watches;
  };
}

abbrev without : ℕ → List ℕ → List ℕ
without i [] = []
without i (j ∷ js) = if eqb i j then without i js else j ∷ without i js

-- `Stop` of a watch
unfoldable pub stop : ℕ → System → System
stop i s = record {
  cache = set_ready false s.cache;
  informer = record (s.informer) { open_watches = without i s.informer.open_watches };
}

-- `Run` has returned, and the deferred call is made.
unfoldable pub run_returned : System → System
run_returned s = record {
  cache = set_ready false s.cache;
  informer = record (s.informer) { is_running = false };
}

abbrev pub synced : System → System
synced s = record s { informer = record (s.informer) { has_synced = true } }

-- `Ready`
unfoldable pub ready : System → Bool
ready s = s.informer.has_synced && s.cache.watch_ready

-- What may happen next.
pub data Step (s : System) : System → Type 0 where
  starts : Step s (start s)
  lists : s.informer.is_running ≡ true → s.informer.call ≡ no_call → Step s (begin_list s)
  has_listed : s.informer.call ≡ list_call → Step s (end_list s)
  watches : s.informer.is_running ≡ true → s.informer.call ≡ no_call → Step s (begin_watch s)
  has_failed : s.informer.call ≡ watch_call → Step s (watch_failed s)
  has_opened : s.informer.is_running ≡ true → s.informer.call ≡ watch_call → Step s (watch_opened s)
  stops : (i : ℕ) → Step s (stop i s)
  syncs : s.informer.is_running ≡ true → Step s (synced s)
  returns : s.informer.is_running ≡ true → s.informer.call ≡ no_call → Step s (run_returned s)

-- What may come to be.
pub data Reachable : System → Type 0 where
  at_first : Reachable initial
  then_steps : {s t : System} → Reachable s → Step s t → Reachable t
