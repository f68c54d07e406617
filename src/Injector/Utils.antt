-- ===== src/Injector/Utils.antt =====
-- apis/webhook/injector/utils.go: lists without repetitions, lists of pairs in one text, and the resources of
-- an injected container.
pub mod Pairs
pub mod Resources
use datakit_operator.Common.{
  Option, none, some, Bool, true, false, List, [], ◌∷◌, ◌++◌, map, String, ◌==◌, if◌then◌else◌,
}
use datakit_operator.Common.Text.{split, join, ◌⁀◌}
use datakit_operator.Kubernetes
use datakit_operator.Manager.{add_named}
use datakit_operator.Config.Selector.{Compilers}
use datakit_operator.Config.Resource.{ResourceRequirements}

abbrev pub itself : String → String
itself s = s

-- The loop of `unique`: the texts that were met are those of the result so far.
unfoldable pub unique_onto : List String → List String → List String
unfolding add_named
unique_onto met [] = met
unique_onto met (s ∷ slice) = unique_onto (add_named itself s met) slice

unfoldable pub unique : List String → List String
unfolding unique_onto
unique slice = unique_onto [] slice

abbrev pub Pair : Type 0
Pair = String × String

abbrev pub key_of : Pair → String
key_of kv = kv.0

-- The parts of a text that have just one colon, with 44 for a comma and 58 for a colon.
add_pair : List String → List Pair → List Pair
add_pair (k ∷ v ∷ []) pairs = (k, v) ∷ pairs
add_pair _ pairs = pairs

pairs_from : List String → List Pair
unfolding add_pair split
pairs_from [] = []
pairs_from (part ∷ parts) = add_pair (split 58 part) (pairs_from parts)

unfoldable pub pairs_of : String → List Pair
unfolding pairs_from split
pairs_of s = pairs_from (split 44 s)

-- The second loop: a pair whose key is there is left out.
unfoldable pub append_pairs : List Pair → List Pair → List Pair
unfolding add_named
append_pairs origin [] = origin
append_pairs origin (kv ∷ neww) = append_pairs (add_named key_of kv origin) neww

abbrev print_pair : Pair → String
print_pair kv = join ":" (kv.0 ∷ kv.1 ∷ [])

unfoldable pub append_kv_pairs : String → String → String
unfolding append_pairs pairs_of
append_kv_pairs origin neww =
    join "," (map print_pair (append_pairs (pairs_of origin) (pairs_of neww)))

-- One entry of a resource list; `none` is the panic of `MustParse`.
abbrev with_entry : String → Option String → List Pair → Option (List Pair)
with_entry name none rest = none
with_entry name (some quantity) rest = some ((name, quantity) ∷ rest)

unfoldable pub put_quantity : Compilers → String → String → Option (List Pair) → Option (List Pair)
put_quantity c name q none = none
put_quantity c name q (some rest) =
    if q == "" then some rest else with_entry name (c.parse_quantity q) rest

abbrev both_lists : Option (List Pair) → Option (List Pair) → Option Kubernetes.ResourceRequirements
both_lists (some requests) (some limits) = some (record { requests = requests; limits = limits })
both_lists _ _ = none

-- `setContainerResources`, with the four quantities of a rule
unfoldable pub container_resources :
    Compilers → ResourceRequirements → Option Kubernetes.ResourceRequirements
unfolding put_quantity
container_resources c r =
    both_lists
      (put_quantity c "cpu" r.requests.cpu (put_quantity c "memory" r.requests.memory (some [])))
      (put_quantity c "cpu" r.limits.cpu (put_quantity c "memory" r.limits.memory (some [])))
