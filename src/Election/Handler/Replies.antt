-- ===== src/Election/Handler/Replies.antt =====
-- What the election routes of apis/election/handler.go answer.
use datakit_operator.Common.{
  ℕ, ◌≡◌, ◌≢◌, ◌⊎◌, inl, inr, refl, ◌||◌, String, ◌==◌, List, arith, eq_iff, Bool-cases,
}
use datakit_operator.Common.Int.{pos}
use datakit_operator.Election.LeaseName.{lease_name}
use datakit_operator.Election.Metrics.{Operation, error}
use datakit_operator.Election.Cluster.{Cluster}
use datakit_operator.Election.Coordinator.{
  Result, result, Coordinator, Answer, replied, refused, elect, Request, ElectError,
  cache_not_ready, storage_unavailable, access_forbidden,
}
use datakit_operator.Election.Handler.{Query, Response, error_code, respond, missing_params, handle}

module _ {W : Type 0} (env : Cluster W) (sha256_hex : List ℕ → String) where
  abbrev asked : Operation → Query → Request
  asked op p = record {
    operation = op;
    name = lease_name sha256_hex p.token p.namespace;
    namespace = p.namespace;
    id = p.id;
  }

  abbrev NamesNoHolder : Result → Type 0
  NamesNoHolder r = (r.status ≡ error) × (r.incumbency_id ≡ "") × (r.epoch ≡ pos 0)

  error_code-ne-empty : (e : ElectError) → error_code e ≢ ""
  error_code-ne-empty cache_not_ready = ground (arith, eq_iff "cache_not_ready" "")
  error_code-ne-empty storage_unavailable = ground (arith, eq_iff "storage_unavailable" "")
  error_code-ne-empty access_forbidden = ground (arith, eq_iff "rbac_forbidden" "")

  -- The two kinds of answer behind an `elect`.
  abbrev Answered : Query → Answer → Response → Type 0
  Answered p answer a =
      ((a.code ≡ 200) × (answer ≡ replied a.content))
      ⊎ ((a.code ≡ 503) × (a.content.error_code ≢ "") × NamesNoHolder a.content)

  respond-Answered : (p : Query) (answer : Answer) → Answered p answer (respond p answer)
  unfolding result
  respond-Answered p (replied r) = inl (refl, refl)
  respond-Answered p (refused e) = inr (refl, error_code-ne-empty e, (refl, refl, refl))

  -- What the code of a response says.
  abbrev pub Says : Operation → Query → Coordinator → W → Response → Type 0
  Says op p c w a =
      ((a.code ≡ 400) × ((p.token ≡ "") ⊎ (p.id ≡ "")) × NamesNoHolder a.content)
      ⊎ ((p.token ≢ "") × (p.id ≢ "") × Answered p (elect env (asked op p) c w).0 a)

  missing-NamesNoHolder : (p : Query) → NamesNoHolder (missing_params p).content
  unfolding result
  missing-NamesNoHolder p = (refl, refl, refl)

  -- Every election request is answered in one of three ways: 400 for an empty token or id, 200
  -- with the coordinator's own reply, or 503 with an error code; the answers that are not 200
  -- name no holder and no epoch.
  pub handle-Says :
      (op : Operation) (p : Query) (c : Coordinator) (w : W)
      → Says op p c w (handle env sha256_hex op p c w).0
  unfolding handle
  handle-Says op p c w = elim (Bool-cases (p.token == "" || p.id == "")) [
    | inl bad ↦
        rw bad
          (inl (refl, ground (arith, eq_iff p.token "", eq_iff p.id ""), missing-NamesNoHolder p))
    | inr good ↦ rw good (
        inr (
          ground (arith, eq_iff p.token ""),
          ground (arith, eq_iff p.id ""),
          respond-Answered p (elect env (asked op p) c w).0,
        ))
  ]
