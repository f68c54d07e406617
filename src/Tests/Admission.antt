-- ===== src/Tests/Admission.antt =====
-- The laws of apis/webhook/handle.go with injectors that fail.
use datakit_operator.Common.{◌≡◌, refl, none, some, true, false, [], inl, inr}
use datakit_operator.Webhook.Mutate.{fails_with, Injector, Injectors, should_inject}
use datakit_operator.Webhook.Handler.{
  AdmissionRequest, InjectRequest, panicked, review, create, handle_inject, mutate_request,
}
use datakit_operator.Webhook.Handler.Reviews.{
  Answers, carried, handle_inject-Answers, mutate_request-left_alone,
}
use datakit_operator.Tests.Pods.{app_pod, app_pod_distinct}

abbrev failing : Injector
failing = λ namespace parent pod. inl (fails_with "no image")

abbrev injectors : Injectors
injectors = record {
  tracing = failing;
  logfwd = failing;
  flameshot = failing;
  profiler = failing;
  logging = failing;
}

abbrev created : AdmissionRequest
created = record {
  uid = "1";
  namespace = "ns";
  is_pod_resource = true;
  operation = create;
  pod = inr app_pod;
}

abbrev request : InjectRequest
request = record { content_type = "application/json"; body = some (review (some created)) }

handle_inject-Answers_example :
    Answers injectors (carried request) (handle_inject injectors request)
handle_inject-Answers_example = handle_inject-Answers injectors request

-- A review without a request.
empty_review_panics :
    handle_inject injectors (record request { body = some (review none) }) ≡ panicked
unfolding handle_inject
empty_review_panics = refl

app_pod_disabled : should_inject app_pod.annotations ≡ false
unfolding should_inject
app_pod_disabled = refl

mutate_request-left_alone_example : mutate_request injectors created ≡ inr []
mutate_request-left_alone_example =
    mutate_request-left_alone injectors created app_pod refl refl app_pod_distinct
      (inr app_pod_disabled)
