-- ===== src/Election/Metrics.antt =====
-- The counters of apis/election/metrics.go. An array that an operation, a status or a reason
-- indexes is a function; a counter is a uint64, which wraps around.
use datakit_operator.Common.{ℕ, ◌+◌, ◌%◌, Bool, true, false, if◌then◌else◌}

pub data Operation : Type 0 where
  campaign heartbeat informer : Operation

pub data Status : Type 0 where
  success defeat error : Status

pub data Transition : Type 0 where
  first_acquire lease_expired : Transition

abbrev pub is_campaign : Operation → Bool
is_campaign campaign = true
is_campaign _ = false

abbrev pub same_operation : Operation → Operation → Bool
same_operation campaign campaign = true
same_operation heartbeat heartbeat = true
same_operation informer informer = true
same_operation _ _ = false

abbrev pub same_status : Status → Status → Bool
same_status success success = true
same_status defeat defeat = true
same_status error error = true
same_status _ _ = false

abbrev pub same_transition : Transition → Transition → Bool
same_transition first_acquire first_acquire = true
same_transition lease_expired lease_expired = true
same_transition _ _ = false

abbrev pub u64 : ℕ → ℕ
u64 n = n % 18446744073709551616

pub record ElectionCounters : Type 0 where
  pub requests : Operation → Status → ℕ
  pub transitions : Transition → ℕ
  pub storage_errors : Operation → ℕ
  pub cas_conflicts : Operation → ℕ

abbrev pub no_counts : ElectionCounters
no_counts = record {
  requests = λ _ _. 0;
  transitions = λ _. 0;
  storage_errors = λ _. 0;
  cas_conflicts = λ _. 0;
}

abbrev pub bump : Bool → ℕ → ℕ
bump hit n = if hit then u64 (n + 1) else n

unfoldable pub record_request : Operation → Status → ElectionCounters → ElectionCounters
record_request op st m = record m {
  requests = λ o s.
      if same_operation o op then bump (same_status s st) (m.requests o s) else m.requests o s;
}

unfoldable pub record_transition : Transition → ElectionCounters → ElectionCounters
record_transition reason m = record m {
  transitions = λ r. bump (same_transition r reason) (m.transitions r);
}

unfoldable pub record_storage_error : Operation → ElectionCounters → ElectionCounters
record_storage_error op m = record m {
  storage_errors = λ o. bump (same_operation o op) (m.storage_errors o);
}

unfoldable pub record_cas_conflict : Operation → ElectionCounters → ElectionCounters
record_cas_conflict op m = record m {
  cas_conflicts = λ o. bump (same_operation o op) (m.cas_conflicts o);
}
