-- ===== src/Election/Cluster.antt =====
-- What the coordinator calls and does not implement: the Lease API, the informer's cache and the
-- clocks. `W` is the state of all that lies outside the operator; a call may change it, as may
-- whatever else runs meanwhile.
use datakit_operator.Common.{ℕ, Bool, true, false, String}
use datakit_operator.Election.Lease.{Lease}

-- The errors that `apierrors` tells apart.
pub data ApiError : Type 0 where
  not_found conflict already_exists forbidden other_error : ApiError

pub data Reply : Type 0 where
  found : Lease → Reply
  failed : ApiError → Reply

-- What an access review says of one verb.
pub data Review : Type 0 where
  allowed denied : Review
  review_failed : ApiError → Review

pub record Cluster (W : Type 0) : Type 0 where
  pub get : String → W → Reply × W
  pub create : Lease → W → Reply × W
  pub update : Lease → W → Reply × W
  pub review : String → String → W → Review × W
  pub cache_ready : W → Bool
  pub cache_get : String → W → Reply
  pub now : W → ℕ
  pub elapsed : W → ℕ

abbrev pub is_not_found : ApiError → Bool
is_not_found not_found = true
is_not_found _ = false

abbrev pub is_forbidden : ApiError → Bool
is_forbidden forbidden = true
is_forbidden _ = false

-- `IsConflict || IsAlreadyExists || IsNotFound`
abbrev pub is_lost_race : ApiError → Bool
is_lost_race not_found = true
is_lost_race conflict = true
is_lost_race already_exists = true
is_lost_race _ = false
