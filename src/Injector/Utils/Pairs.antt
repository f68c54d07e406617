-- ===== src/Injector/Utils/Pairs.antt =====
-- What becomes of texts and pairs that are put together (unique and appendKVPairs).
use datakit_operator.Common.{
  Option, none, some, true, ◌||◌, List, [], ◌∷◌, ◌++◌, String, ◌≡◌, refl, sym, ap, ◌∙◌, ◌==◌,
  if◌then◌else◌, lookup, arith, eq_iff, Bool-cases, inl, inr,
}
use mathlib.Core.Path.{subst}
use datakit_operator.Manager.{contains_name, add_named}
use datakit_operator.Manager.Named.{
  HasDistinctNames, add_named-HasDistinctNames, contains_name-append,
}
use datakit_operator.Injector.Utils.{itself, unique_onto, unique, Pair, key_of, append_pairs}

unique_onto-HasDistinctNames :
    (met slice : List String)
    → HasDistinctNames itself met
    → HasDistinctNames itself (unique_onto met slice)
unfolding unique_onto
unique_onto-HasDistinctNames met [] d = d
unique_onto-HasDistinctNames met (s ∷ slice) d =
    unique_onto-HasDistinctNames (add_named itself s met) slice
      (add_named-HasDistinctNames itself s met d)

contains_name-add_named :
    (k s : String) (met : List String)
    → contains_name itself k (add_named itself s met) ≡ (contains_name itself k met || s == k)
unfolding add_named contains_name
contains_name-add_named k s met = elim (Bool-cases (contains_name itself s met)) [
  | inl old ↦ rw old (ground (arith, old, eq_iff s k))
  | inr new ↦ rw new (contains_name-append itself k met (s ∷ []) ∙ ground arith)
]

unique_onto-contains :
    (k : String) (met slice : List String)
    → contains_name itself k (unique_onto met slice)
      ≡ (contains_name itself k met || contains_name itself k slice)
unfolding unique_onto contains_name
unique_onto-contains k met [] = ground arith
unique_onto-contains k met (s ∷ slice) =
    unique_onto-contains k (add_named itself s met) slice
    ∙ ap (λ b. b || contains_name itself k slice) (contains_name-add_named k s met)
    ∙ ground arith

-- Each text of a slice stands once in the result of unique, and no other text does.
pub unique-HasDistinctNames :
    (slice : List String)
    → HasDistinctNames itself (unique slice)
      × ((k : String) → contains_name itself k (unique slice) ≡ contains_name itself k slice)
unfolding unique contains_name
unique-HasDistinctNames slice =
    (unique_onto-HasDistinctNames [] slice tt, λ k. unique_onto-contains k [] slice)

abbrev pub first_of : Option String → Option String → Option String
first_of none b = b
first_of (some a) b = some a

abbrev one : Pair → String → Option String
one kv k = if kv.0 == k then some kv.1 else none

lookup-snoc :
    (k : String) (kv : Pair) (origin : List Pair)
    → lookup k (origin ++ kv ∷ []) ≡ first_of (lookup k origin) (one kv k)
lookup-snoc k kv [] = refl
lookup-snoc k kv (o ∷ origin) = elim (Bool-cases (o.0 == k)) [
  | inl here ↦ rw here refl
  | inr later ↦ rw later (lookup-snoc k kv origin)
]

known_key :
    (k : String) (origin : List Pair) (b : Option String)
    → contains_name key_of k origin ≡ true
    → first_of (lookup k origin) b ≡ lookup k origin
unfolding contains_name
known_key k [] b h = ground arith
known_key k (o ∷ origin) b h = elim (Bool-cases (o.0 == k)) [
  | inl here ↦ rw here refl
  | inr later ↦ rw later (known_key k origin b (ground arith))
]

first_of-none : (o : Option String) → first_of o none ≡ o
first_of-none none = refl
first_of-none (some a) = refl

lookup-add_named :
    (k : String) (kv : Pair) (origin : List Pair)
    → lookup k (add_named key_of kv origin) ≡ first_of (lookup k origin) (one kv k)
unfolding add_named
lookup-add_named k kv origin = elim (Bool-cases (contains_name key_of kv.0 origin)) [
  | inl old ↦ elim (Bool-cases (kv.0 == k)) [
    | inl same ↦
        rw (old, same)
          (sym (
            known_key k origin (some kv.1)
              (subst (λ j. contains_name key_of j origin ≡ true) ((eq_iff kv.0 k).0 same) old)))
    | inr other ↦ rw (old, other) (sym (first_of-none (lookup k origin)))
  ]
  | inr new ↦ rw new (lookup-snoc k kv origin)
]

first_of_assoc :
    (a b : Option String) (c : Option String)
    → first_of (first_of a b) c ≡ first_of a (first_of b c)
first_of_assoc none b c = refl
first_of_assoc (some x) b c = refl

lookup-cons :
    (k : String) (kv : Pair) (rest : List Pair)
    → first_of (one kv k) (lookup k rest) ≡ lookup k (kv ∷ rest)
lookup-cons k kv rest = elim (Bool-cases (kv.0 == k)) [
  | inl here ↦ rw here refl
  | inr later ↦ rw later refl
]

-- After the pairs of a new text are appended to those of the original one, a key has the first
-- value that the original text gives it, and the first value of the new text where the original
-- has none.
pub lookup-append_pairs :
    (k : String) (origin neww : List Pair)
    → lookup k (append_pairs origin neww) ≡ first_of (lookup k origin) (lookup k neww)
unfolding append_pairs
lookup-append_pairs k origin [] = sym (first_of-none (lookup k origin))
lookup-append_pairs k origin (kv ∷ neww) =
    lookup-append_pairs k (add_named key_of kv origin) neww
    ∙ ap (λ o. first_of o (lookup k neww)) (lookup-add_named k kv origin)
    ∙ first_of_assoc (lookup k origin) (one kv k) (lookup k neww)
    ∙ ap (first_of (lookup k origin)) (lookup-cons k kv neww)
