-- ===== src/Webhook/Handler/Reviews.antt =====
-- The reply to an admission review (HandleInject, mutateRequest, mutatePod).
use datakit_operator.Common.{
  Option, none, some, true, false, [], String, ◌≡◌, refl, ap, ◌==◌, if◌then◌else◌, ◌⊎◌, inl, inr,
  Bool-cases,
}
use datakit_operator.Kubernetes.{Container, Pod}
use datakit_operator.Manager.Named.{HasDistinctNames}
use datakit_operator.Webhook.Patch.{Patches}
use datakit_operator.Webhook.Patch.Unchanged.{build_pod_injection_patch-same}
use datakit_operator.Webhook.Mutate.{
  Outcome, fails_with, panics, Injectors, should_inject, mutate_pod,
}
use datakit_operator.Webhook.Handler.{
  AdmissionRequest, AdmissionResponse, InjectRequest, InjectReply, status, reviewed, panicked,
  Decoded, undecodable, unsupported_kind, not_a_review, review, handle_inject, answer_decoded,
  answer_review, mutation_response, mutate_request, mutate_decoded, is_create, get_generate_name,
}

-- What a request carries: no review in JSON, or a review, which may lack its own request.
pub data Carried : Type 0 where
  no_review empty_review : Carried
  review_of : AdmissionRequest → Carried

abbrev carried_in : Option Decoded → Carried
carried_in (some (review none)) = empty_review
carried_in (some (review (some r))) = review_of r
carried_in _ = no_review

abbrev pub carried : InjectRequest → Carried
carried request =
    if request.content_type == "application/json" then carried_in request.body else no_review

-- What becomes of a review by the outcome of its mutation: a panic is answered by nothing; else the answer
-- has the identifier of the request, lets the pod in, and has the patch or the message of the error.
abbrev pub Settles : AdmissionRequest → Outcome Patches → InjectReply → Type 0
Settles r (inl panics) reply = reply ≡ panicked
Settles r (inl (fails_with e)) reply =
    (response : AdmissionResponse) × (reply ≡ reviewed response)
    × (response.uid ≡ r.uid)
    × (response.allowed ≡ true)
    × (response.patch ≡ none)
    × (response.message ≡ some e)
Settles r (inr patches) reply =
    (response : AdmissionResponse) × (reply ≡ reviewed response)
    × (response.uid ≡ r.uid)
    × (response.allowed ≡ true)
    × (response.patch ≡ some patches)
    × (response.message ≡ none)

abbrev pub Answers : Injectors → Carried → InjectReply → Type 0
Answers i no_review reply = reply ≡ status 400
Answers i empty_review reply = reply ≡ panicked
Answers i (review_of r) reply = Settles r (mutate_request i r) reply

answer_review-Settles :
    (r : AdmissionRequest) (o : Outcome Patches) → Settles r o (answer_review r.uid o)
unfolding mutation_response
answer_review-Settles r (inl panics) = refl
answer_review-Settles r (inl (fails_with e)) =
    (mutation_response r.uid (inl e), refl, refl, refl, refl, refl)
answer_review-Settles r (inr patches) =
    (mutation_response r.uid (inr patches), refl, refl, refl, refl, refl)

answer_decoded-Answers :
    (i : Injectors) (body : Option Decoded) → Answers i (carried_in body) (answer_decoded i body)
unfolding answer_decoded
answer_decoded-Answers i none = refl
answer_decoded-Answers i (some undecodable) = refl
answer_decoded-Answers i (some unsupported_kind) = refl
answer_decoded-Answers i (some not_a_review) = refl
answer_decoded-Answers i (some (review none)) = refl
answer_decoded-Answers i (some (review (some r))) = answer_review-Settles r (mutate_request i r)

-- Whatever the injectors do, a request that carries no review as JSON is answered with the status
-- 400; a review without a request of its own, or whose mutation panics, is answered by nothing,
-- since the handler panics; and every other review is answered under its own identifier, with the
-- pod allowed, and with the patch of mutateRequest or, where it fails, the message of its error
-- and no patch.
pub handle_inject-Answers :
    (i : Injectors) (request : InjectRequest)
    → Answers i (carried request) (handle_inject i request)
unfolding handle_inject
handle_inject-Answers i request = elim (Bool-cases (request.content_type == "application/json")) [
  | inl json ↦ rw json (answer_decoded-Answers i request.body)
  | inr other ↦ rw other refl
]

not_injected :
    (i : Injectors) (namespace parent : String) (pod : Pod)
    → should_inject pod.annotations ≡ false
    → mutate_pod i namespace parent pod ≡ inr (false, pod)
unfolding mutate_pod
not_injected i namespace parent pod h = rw h refl

left_alone_decoded :
    (i : Injectors) (r : AdmissionRequest) (pod : Pod)
    → HasDistinctNames Container.name pod.spec.containers
    → (is_create r.operation ≡ false) ⊎ (should_inject pod.annotations ≡ false)
    → mutate_decoded i r (inr pod) ≡ inr []
unfolding mutate_decoded
left_alone_decoded i r pod d (inl later) = rw later refl
left_alone_decoded i r pod d (inr disabled) = elim (Bool-cases (is_create r.operation)) [
  | inl now ↦
      rw (now, not_injected i r.namespace (get_generate_name pod.generate_name) pod disabled)
        (ap inr (build_pod_injection_patch-same pod d))
  | inr later ↦ rw later refl
]

-- A pod that is decoded, whose containers have distinct names, and that is not being created or
-- has an annotation admission.datakit/enabled that reads as false, gets a patch without
-- operations, whatever the injectors would do.
pub mutate_request-left_alone :
    (i : Injectors) (r : AdmissionRequest) (pod : Pod)
    → r.is_pod_resource ≡ true
    → r.pod ≡ inr pod
    → HasDistinctNames Container.name pod.spec.containers
    → (is_create r.operation ≡ false) ⊎ (should_inject pod.annotations ≡ false)
    → mutate_request i r ≡ inr []
unfolding mutate_request
mutate_request-left_alone i r pod p e d h = rw (p, e) (left_alone_decoded i r pod d h)
