-- ===== src/Webhook/Handler.antt =====
-- apis/webhook/handle.go: one admission request, from the HTTP request to the reply. Decoding and encoding
-- are the Kubernetes libraries': a request comes as what the decoder made of it, a patch goes out as the
-- list of its operations.
pub mod Reviews
use Prim.Native.Char.{code}
use Prim.Native.String
use datakit_operator.Common.{
  ℕ, Option, none, some, Bool, true, false, List, [], ◌∷◌, String, ◌==◌, if◌then◌else◌, ◌⊎◌, inl,
  inr, eqb, ◌&&◌,
}
use datakit_operator.Common.Text.{cons, ◌⁀◌}
use datakit_operator.Kubernetes.{Pod}
use datakit_operator.Webhook.Patch.{Patches, build_pod_injection_patch}
use datakit_operator.Webhook.Mutate.{Outcome, fails_with, panics, Injectors, mutate_pod}

-- `getGenerateName`: without the dash at the end
strip_dash : String → String
strip_dash String.[] = ""
strip_dash (String.◌∷◌ c s) =
    let rest = strip_dash s in if s == "" && eqb (code c) 45 then "" else cons c rest

unfoldable pub get_generate_name : String → String
unfolding strip_dash
get_generate_name name = if name == "" then "<no-one>" else strip_dash name

pub data AdmissionOperation : Type 0 where
  create update delete connect : AdmissionOperation

abbrev pub is_create : AdmissionOperation → Bool
is_create create = true
is_create _ = false

-- `pod` is what `json.Unmarshal` makes of the object.
pub record AdmissionRequest : Type 0 where
  pub uid : String
  pub namespace : String
  pub is_pod_resource : Bool
  pub operation : AdmissionOperation
  pub pod : String ⊎ Pod

pub record AdmissionResponse : Type 0 where
  pub uid : String
  pub allowed : Bool
  pub patch : Option Patches
  pub message : Option String

-- The end of `mutateRequest`.
abbrev patch_from : Pod → Outcome (Bool × Pod) → Outcome Patches
patch_from pod (inl (fails_with error)) =
    inl (fails_with ("failed to mutate type resource: " ⁀ error))
patch_from pod (inl panics) = inl panics
patch_from pod (inr (changed, new)) = inr (build_pod_injection_patch pod new)

mutate_decoded : Injectors → AdmissionRequest → String ⊎ Pod → Outcome Patches
unfolding build_pod_injection_patch mutate_pod get_generate_name
mutate_decoded i r (inl error) = inl (fails_with ("failed to decode pod object: " ⁀ error))
mutate_decoded i r (inr pod) =
    if is_create r.operation
    then patch_from pod (mutate_pod i r.namespace (get_generate_name pod.generate_name) pod)
    else inr []

unfoldable pub mutate_request : Injectors → AdmissionRequest → Outcome Patches
unfolding mutate_decoded
mutate_request i r =
    if r.is_pod_resource then mutate_decoded i r r.pod else inl (fails_with "Unsupported resource")

-- `mutationResponsev1`, with the identifier that `HandleInject` writes into it: an error never denies the
-- pod.
unfoldable pub mutation_response : String → String ⊎ Patches → AdmissionResponse
mutation_response uid (inl error) = record {
  uid = uid;
  allowed = true;
  patch = none;
  message = some error;
}
mutation_response uid (inr patches) = record {
  uid = uid;
  allowed = true;
  patch = some patches;
  message = none;
}

-- What the deserializer makes of a body. The request of a review is a pointer.
pub data Decoded : Type 0 where
  undecodable unsupported_kind not_a_review : Decoded
  review : Option AdmissionRequest → Decoded

-- `none` for a body that cannot be read
pub record InjectRequest : Type 0 where
  pub content_type : String
  pub body : Option Decoded

-- A panic leaves the handler without an answer; what the client gets then is up to gin's Recovery.
pub data InjectReply : Type 0 where
  status : ℕ → InjectReply
  reviewed : AdmissionResponse → InjectReply
  panicked : InjectReply

-- A review is answered with the patch or the error of `mutateRequest`.
abbrev answer_review : String → Outcome Patches → InjectReply
answer_review uid (inl panics) = panicked
answer_review uid (inl (fails_with error)) = reviewed (mutation_response uid (inl error))
answer_review uid (inr patches) = reviewed (mutation_response uid (inr patches))

answer_decoded : Injectors → Option Decoded → InjectReply
unfolding mutation_response mutate_request
answer_decoded i none = status 400
answer_decoded i (some undecodable) = status 400
answer_decoded i (some unsupported_kind) = status 400
answer_decoded i (some not_a_review) = status 400
answer_decoded i (some (review none)) = panicked
answer_decoded i (some (review (some r))) = answer_review r.uid (mutate_request i r)

unfoldable pub handle_inject : Injectors → InjectRequest → InjectReply
unfolding answer_decoded
handle_inject i request =
    if request.content_type == "application/json" then answer_decoded i request.body else status 400
