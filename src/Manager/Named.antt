-- ===== src/Manager/Named.antt =====
-- Adding an item whose name may be taken (pkg/manager): containers, volumes and mounts.
use datakit_operator.Common.{
  ◌≡◌, refl, sym, ap, ◌∙◌, true, false, List, [], ◌∷◌, ◌++◌, String, ◌==◌, if◌then◌else◌, arith,
  eq_iff, eq_refl, Bool-cases, inl, inr, All, All-append,
}
use mathlib.Core.List.{append-nil, append_assoc}
use mathlib.Core.Path.{subst}
use datakit_operator.Manager.{contains_name, add_named}

module _ {ℓ} {A : Type ℓ} (name_of : A → String) where
  -- No two items share a name.
  abbrev pub HasDistinctNames : List A → Type 0
  HasDistinctNames [] = Unit
  HasDistinctNames (x ∷ xs) = (contains_name name_of (name_of x) xs ≡ false) × HasDistinctNames xs

  -- The second list is the first one with items behind it whose names are new.
  pub record Extends (old new : List A) : Type ℓ where
    pub added : List A
    pub appended : new ≡ old ++ added
    pub fresh : All (λ x. contains_name name_of (name_of x) old ≡ false) added

  pub contains_name-append :
      (name : String) (xs ys : List A)
      → contains_name name_of name (xs ++ ys)
        ≡ (if contains_name name_of name xs then true else contains_name name_of name ys)
  unfolding contains_name
  contains_name-append name [] ys = refl
  contains_name-append name (x ∷ xs) ys = elim (Bool-cases (name_of x == name)) [
    | inl here ↦ rw here refl
    | inr later ↦ rw later (contains_name-append name xs ys)
  ]

  -- Whatever was there stays where it was, and the name is there afterwards.
  pub add_named-contains :
      (x : A) (xs : List A) → contains_name name_of (name_of x) (add_named name_of x xs) ≡ true
  unfolding add_named
  add_named-contains x xs = elim (Bool-cases (contains_name name_of (name_of x) xs)) [
    | inl old ↦ rw old old
    | inr new ↦
        rw new (rw (contains_name-append (name_of x) xs (x ∷ []), new, eq_refl (name_of x)) refl)
  ]

  pub add_named-Extends : (x : A) (xs : List A) → Extends xs (add_named name_of x xs)
  unfolding add_named
  add_named-Extends x xs = elim (Bool-cases (contains_name name_of (name_of x) xs)) [
    | inl old ↦ rw old (record { added = []; appended = sym (append-nil xs); fresh = tt })
    | inr new ↦ rw new (record { added = x ∷ []; appended = refl; fresh = (new, tt) })
  ]

  HasDistinctNames-snoc :
      (xs : List A) (x : A)
      → HasDistinctNames xs
      → contains_name name_of (name_of x) xs ≡ false
      → HasDistinctNames (xs ++ x ∷ [])
  unfolding contains_name
  HasDistinctNames-snoc [] x d n = (refl, tt)
  HasDistinctNames-snoc (y ∷ ys) x (here, d) n = (
    rw (contains_name-append (name_of y) ys (x ∷ []), here)
        (ground (arith, eq_iff (name_of x) (name_of y), eq_iff (name_of y) (name_of x))),
    HasDistinctNames-snoc ys x d (ground arith),
  )

  pub add_named-HasDistinctNames :
      (x : A) (xs : List A) → HasDistinctNames xs → HasDistinctNames (add_named name_of x xs)
  unfolding add_named
  add_named-HasDistinctNames x xs d = elim (Bool-cases (contains_name name_of (name_of x) xs)) [
    | inl old ↦ rw old d
    | inr new ↦ rw new (HasDistinctNames-snoc xs x d new)
  ]

  pub add_named_present :
      (x : A) (xs : List A)
      → contains_name name_of (name_of x) xs ≡ true
      → add_named name_of x xs ≡ xs
  unfolding add_named
  add_named_present x xs h = rw h refl

  -- A second addition changes nothing.
  pub add_named_again :
      (x : A) (xs : List A) → add_named name_of x (add_named name_of x xs) ≡ add_named name_of x xs
  add_named_again x xs = add_named_present x (add_named name_of x xs) (add_named-contains x xs)

  pub Extends-refl : (xs : List A) → Extends xs xs
  Extends-refl xs = record { added = []; appended = sym (append-nil xs); fresh = tt }

  fresh_before :
      (xs ys zs : List A)
      → All (λ x. contains_name name_of (name_of x) (xs ++ ys) ≡ false) zs
      → All (λ x. contains_name name_of (name_of x) xs ≡ false) zs
  fresh_before xs ys [] h = tt
  fresh_before xs ys (z ∷ zs) (n, h) =
      (ground (arith, contains_name-append (name_of z) xs ys), fresh_before xs ys zs h)

  -- Additions compose.
  pub Extends-trans : {xs ys zs : List A} → Extends xs ys → Extends ys zs → Extends xs zs
  Extends-trans {xs} {ys} {zs} a b = record {
    added = a.added ++ b.added;
    appended = b.appended ∙ ap (λ l. l ++ b.added) a.appended ∙ append_assoc xs a.added b.added;
    fresh = All-append _ a.added b.added a.fresh (
        fresh_before xs a.added b.added (
          subst (λ l. All (λ x. contains_name name_of (name_of x) l ≡ false) b.added) a.appended
            b.fresh));
  }
