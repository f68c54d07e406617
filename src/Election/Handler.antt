-- ===== src/Election/Handler.antt =====
-- apis/election/handler.go: the HTTP answers of the election routes and of the startup probe.
pub mod Replies
pub mod Readiness
use datakit_operator.Common.{
  ℕ, Option, none, some, Bool, true, false, ◌||◌, String, ◌==◌, List, [], ◌∷◌, if◌then◌else◌,
}
use datakit_operator.Election.Lease.{Lease}
use datakit_operator.Election.LeaseName.{lease_name}
use datakit_operator.Election.Metrics.{
  Operation, informer, Status, error, ElectionCounters, record_request,
}
use datakit_operator.Election.Cluster.{Cluster, Review, allowed, denied, review_failed, ApiError}
use datakit_operator.Election.Coordinator.{
  Result, result, ElectError, cache_not_ready, storage_unavailable, access_forbidden, Answer,
  replied, refused, Coordinator, elect, storage_error,
}

pub record Query : Type 0 where
  pub token : String
  pub namespace : String
  pub id : String

pub record Response : Type 0 where
  pub code : ℕ
  pub content : Result

abbrev pub error_code : ElectError → String
error_code access_forbidden = "rbac_forbidden"
error_code cache_not_ready = "cache_not_ready"
error_code storage_unavailable = "storage_unavailable"

abbrev respond : Query → Answer → Response
respond p (replied r) = record { code = 200; content = r }
respond p (refused e) = record {
  code = 503;
  content = record (result error p.namespace p.id none false) {
    error_msg = "DataKit election coordinator unavailable";
    error_code = error_code e;
  };
}

abbrev missing_params : Query → Response
missing_params p = record {
  code = 400;
  content = record (result error p.namespace p.id none false) {
    error_msg = "token and id cannot be empty";
  };
}

abbrev refusal : Answer → Option ElectError
refusal (refused e) = some e
refusal (replied r) = none

abbrev pub verbs : List String
verbs = "get" ∷ "list" ∷ "watch" ∷ "create" ∷ "update" ∷ []

module _ {W : Type 0} (env : Cluster W) where
  answer_query :
      (List ℕ → String) → Operation → Query → Coordinator → W → Response × Coordinator × W
  answer_query sha256_hex op p c w =
      let (answer, c', w') =
        elect env
          (record {
            operation = op;
            name = lease_name sha256_hex p.token p.namespace;
            namespace = p.namespace;
            id = p.id;
          })
          c w in
      if p.token == "" || p.id == "" then (missing_params p, c, w) else (respond p answer, c', w')

  unfoldable pub handle :
      (List ℕ → String) → Operation → Query → Coordinator → W → Response × Coordinator × W
  unfolding answer_query record_request
  handle sha256_hex op p c w =
      let (response, c', w') = answer_query sha256_hex op p c w in
      (response, record c' { metrics = record_request op response.content.status c'.metrics }, w')

  after_review :
      (W → Option ElectError × Coordinator × W)
      → Coordinator
      → Review × W
      → Option ElectError × Coordinator × W
  unfolding storage_error
  after_review next c (allowed, w) = next w
  after_review next c (denied, w) = (some access_forbidden, c, w)
  after_review next c (review_failed e, w) =
      (refusal (storage_error informer e c).0, (storage_error informer e c).1, w)

  check_verbs : List String → Coordinator → W → Option ElectError × Coordinator × W
  unfolding after_review
  check_verbs [] c w = (if env.cache_ready w then none else some cache_not_ready, c, w)
  check_verbs (verb ∷ rest) c w =
      after_review (check_verbs rest c) c (env.review c.namespace verb w)

  unfoldable pub check_ready : Coordinator → W → Option ElectError × Coordinator × W
  unfolding check_verbs
  check_ready c w =
      let checked = check_verbs verbs c w in
      if c.namespace == "" then (some cache_not_ready, c, w) else checked
