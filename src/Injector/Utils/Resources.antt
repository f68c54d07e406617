-- ===== src/Injector/Utils/Resources.antt =====
-- The resources of an injected container (setContainerResources), for a rule that was set up.
use datakit_operator.Common.{
  Option, none, some, Bool, true, false, List, [], String, ◌≡◌, refl, ◌==◌, if◌then◌else◌, arith,
  is_some, Bool-cases, inl, inr,
}
use datakit_operator.Config.Selector.{Compilers}
use datakit_operator.Config.Resource.{
  ResourceRequirements, verify, acceptable, usable, cpu_request, memory_request, cpu_limit,
  memory_limit,
}
use datakit_operator.Config.Setup.Usable.{ParsesDefaults, usable-IsUsable}
use datakit_operator.Injector.Utils.{
  Pair, put_quantity, container_resources, with_entry, both_lists,
}

entry_given :
    (name : String) (o : Option String) (rest : List Pair)
    → is_some o ≡ true
    → is_some (with_entry name o rest) ≡ true
entry_given name none rest h = h
entry_given name (some q) rest h = refl

parses :
    (c : Compilers) (q : String)
    → acceptable c q ≡ true
    → (q == "") ≡ false
    → is_some (c.parse_quantity q) ≡ true
unfolding acceptable
parses c q a given = ground (arith, a, given)

put_acceptable :
    (c : Compilers) (name q : String) (o : Option (List Pair))
    → acceptable c q ≡ true
    → is_some o ≡ true
    → is_some (put_quantity c name q o) ≡ true
unfolding put_quantity
put_acceptable c name q none a h = h
put_acceptable c name q (some rest) a h = elim (Bool-cases (q == "")) [
  | inl empty ↦ rw empty refl
  | inr given ↦ rw given (entry_given name (c.parse_quantity q) rest (parses c q a given))
]

four_tests :
    (a b c d : Bool)
    → (if a
        then (if b
            then (if c then (if d then none else some memory_limit) else some cpu_limit)
            else some memory_request)
        else some cpu_request)
      ≡ none
    → (a ≡ true) × (b ≡ true) × (c ≡ true) × (d ≡ true)
four_tests a b c d h = (ground arith, ground arith, ground arith, ground arith)

verified :
    (c : Compilers) (r : ResourceRequirements)
    → verify c r ≡ none
    → (acceptable c r.requests.cpu ≡ true)
      × (acceptable c r.requests.memory ≡ true)
      × (acceptable c r.limits.cpu ≡ true)
      × (acceptable c r.limits.memory ≡ true)
unfolding verify
verified c r h = four_tests _ _ _ _ h

both_given :
    (a b : Option (List Pair))
    → is_some a ≡ true
    → is_some b ≡ true
    → is_some (both_lists a b) ≡ true
both_given none b h k = h
both_given (some x) none h k = k
both_given (some x) (some y) h k = refl

pub verified-given :
    (c : Compilers) (r : ResourceRequirements)
    → verify c r ≡ none
    → is_some (container_resources c r) ≡ true
unfolding container_resources
verified-given c r h =
    let (cr, mr, cl, ml) = verified c r h in
    both_given _ _
      (put_acceptable c "cpu" r.requests.cpu _ cr
        (put_acceptable c "memory" r.requests.memory (some []) mr refl))
      (put_acceptable c "cpu" r.limits.cpu _ cl
        (put_acceptable c "memory" r.limits.memory (some []) ml refl))

-- If the four default quantities parse, setContainerResources makes resources of what any rule
-- has after the set-up, without a panic.
pub container_resources-usable :
    (c : Compilers) (r : ResourceRequirements)
    → ParsesDefaults c
    → is_some (container_resources c (usable c r)) ≡ true
container_resources-usable c r p = verified-given c (usable c r) (usable-IsUsable c p r).1
