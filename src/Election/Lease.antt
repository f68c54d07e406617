-- ===== src/Election/Lease.antt =====
-- The Lease object and the accessors of apis/election/coordinator.go. A pointer is an `Option`, an
-- int32 or int64 is an integer, and a time is a number of nanoseconds.
use datakit_operator.Common.{ℕ, Option, none, some, List, [], ◌∷◌, String}
use datakit_operator.Common.Int.{ℤ, pos, int32, sucz}

-- The fields of `coordinationv1.Lease` that the operator reads or writes.
pub record Lease : Type 0 where
  pub name : String
  pub namespace : String
  pub uid : String
  pub resource_version : String
  pub labels : List (String × String)
  pub holder_identity : Option String
  pub lease_duration_seconds : Option ℤ
  pub acquire_time : Option ℕ
  pub renew_time : Option ℕ
  pub lease_transitions : Option ℤ

abbrev pub lease_duration : ℕ
lease_duration = 30

abbrev pub request_interval : ℕ
request_interval = 3

abbrev pub max_cas_attempts : ℕ
max_cas_attempts = 5

abbrev pub managed_lease_label : String
managed_lease_label = "election.datakits.io/managed"

-- `time.Second`
abbrev pub second : ℕ
second = 1_000_000_000

abbrev pub text_or_empty : Option String → String
text_or_empty none = ""
text_or_empty (some s) = s

abbrev pub int_or_zero : Option ℤ → ℤ
int_or_zero none = pos 0
int_or_zero (some z) = z

unfoldable pub holder : Option Lease → String
holder none = ""
holder (some l) = text_or_empty l.holder_identity

unfoldable pub epoch : Option Lease → ℤ
epoch none = pos 0
epoch (some l) = int_or_zero l.lease_transitions

unfoldable pub acquire_lease : Lease → String → ℕ → Lease
unfolding epoch
acquire_lease lease id now = record lease {
  holder_identity = some id;
  lease_duration_seconds = some (pos lease_duration);
  acquire_time = some now;
  renew_time = some now;
  lease_transitions = some (int32 (sucz (epoch (some lease))));
}

abbrev empty_lease : String → String → Lease
empty_lease namespace name = record {
  name = name;
  namespace = namespace;
  uid = "";
  resource_version = "";
  labels = (managed_lease_label, "true") ∷ [];
  holder_identity = none;
  lease_duration_seconds = none;
  acquire_time = none;
  renew_time = none;
  lease_transitions = none;
}

unfoldable pub new_lease : String → String → String → ℕ → Lease
unfolding acquire_lease
new_lease namespace name id now = acquire_lease (empty_lease namespace name) id now

-- The lease that a heartbeat writes.
unfoldable pub renew_lease : Lease → ℕ → Lease
renew_lease lease now = record lease { renew_time = some now }
