-- ===== src/Webhook/Mutate.antt =====
-- apis/webhook/mutate.go, and the test of an annotation in apis/webhook/injector/utils.go. The five
-- injectors are the arguments of the chain; one that fails answers with its error or panics.
use datakit_operator.Common.{
  Option, none, some, Bool, true, false, ◌||◌, List, [], ◌∷◌, String, ◌==◌, if◌then◌else◌, ◌⊎◌, inl,
  inr, lookup,
}
use datakit_operator.Kubernetes.{Pod}

-- `strconv.ParseBool`, with `none` for its error
unfoldable pub parse_bool : String → Option Bool
parse_bool s =
    if s == "1" || s == "t" || s == "T" || s == "TRUE" || s == "true" || s == "True"
    then some true
    else if s == "0" || s == "f" || s == "F" || s == "FALSE" || s == "false" || s == "False"
    then some false
    else none

abbrev true_unless : Option Bool → Bool
true_unless none = true
true_unless (some b) = b

abbrev read_annotation : Option String → Bool
read_annotation none = true
read_annotation (some s) = true_unless (parse_bool s)

unfoldable pub check_annotation_is_true : List (String × String) → String → Bool
unfolding parse_bool
check_annotation_is_true annotations key = read_annotation (lookup key annotations)

unfoldable pub should_inject : List (String × String) → Bool
unfolding check_annotation_is_true
should_inject annotations = check_annotation_is_true annotations "admission.datakit/enabled"

-- Why there is no result: an error, or a panic, which no code between an injector and the handler recovers.
pub data Failure : Type 0 where
  fails_with : String → Failure
  panics : Failure

abbrev pub Outcome : Type 0 → Type 0
Outcome A = Failure ⊎ A

-- An injector gets the namespace, the parent's name and the pod, and answers whether it changed the pod.
abbrev pub Injector : Type 0
Injector = String → String → Pod → Outcome (Bool × Pod)

unfoldable pub record_change : Bool → Outcome (Bool × Pod) → Outcome (Bool × Pod)
record_change changed (inl error) = inl error
record_change changed (inr (ok, pod)) = inr (changed || ok, pod)

-- One injector, then the rest; the first error or panic ends the chain.
abbrev pub then_run :
    Outcome (Bool × Pod) → (Bool → Pod → Outcome (Bool × Pod)) → Outcome (Bool × Pod)
then_run (inl error) next = inl error
then_run (inr (changed, pod)) next = next changed pod

unfoldable pub run_injectors : List Injector → String → String → Bool → Pod → Outcome (Bool × Pod)
unfolding record_change
run_injectors [] namespace parent changed pod = inr (changed, pod)
run_injectors (inject ∷ rest) namespace parent changed pod =
    then_run (record_change changed (inject namespace parent pod))
      (run_injectors rest namespace parent)

-- Tracing, logfwd, flameshot, profiler and logging, in this order.
pub record Injectors : Type 0 where
  pub tracing : Injector
  pub logfwd : Injector
  pub flameshot : Injector
  pub profiler : Injector
  pub logging : Injector

abbrev pub in_order : Injectors → List Injector
in_order i = i.tracing ∷ i.logfwd ∷ i.flameshot ∷ i.profiler ∷ i.logging ∷ []

unfoldable pub mutate_pod : Injectors → String → String → Pod → Outcome (Bool × Pod)
unfolding should_inject run_injectors
mutate_pod i namespace parent pod =
    if should_inject pod.annotations
    then run_injectors (in_order i) namespace parent false pod
    else inr (false, pod)
