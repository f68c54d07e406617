-- ===== src/EnvBuilder/Paths/WellFormed.antt =====
-- The field paths that a configured value is turned into (convertFieldRefPath).
use datakit_operator.Common.{
  Option, none, some, true, List, [], ◌∷◌, String, ◌≡◌, ◌≢◌, refl, sym, ◌∙◌, ◌==◌, ◌⊎◌, inl, inr,
  All, any, Bool-cases, eq_iff, arith,
}
use datakit_operator.Common.Text.{◌⁀◌}
use datakit_operator.EnvBuilder.Names.{is_qualified_name}
use datakit_operator.EnvBuilder.Paths.{
  FieldRefEntry, fixed_entry, pattern_entry, field_ref_valuefroms, captured, match_entry, path_or,
  search_field_refs, convert_field_ref_path,
}

-- The fields of a pod that Kubernetes offers to its containers.
abbrev pub downward_fields : List String
downward_fields =
    "metadata.name" ∷ "metadata.namespace" ∷ "metadata.uid" ∷ "spec.serviceAccountName"
    ∷ "spec.nodeName" ∷ "status.hostIP" ∷ "status.hostIPs" ∷ "status.podIP" ∷ []

-- A field path that Kubernetes accepts.
pub data IsFieldPath : String → Type 0 where
  plain : (path : String) → any (λ p. p == path) downward_fields ≡ true → IsFieldPath path
  label :
      (k : String) → is_qualified_name k ≡ true → IsFieldPath ("metadata.labels" ⁀ "['" ⁀ k ⁀ "']")
  annotation :
      (k : String)
      → is_qualified_name k ≡ true
      → IsFieldPath ("metadata.annotations" ⁀ "['" ⁀ k ⁀ "']")

-- The entry makes such a path of its key, unless that is empty, and of a qualified name.
abbrev EntryOk : FieldRefEntry → Type 0
EntryOk e =
    (e.key ≢ "" → IsFieldPath (e.to_field_path ""))
    × ((e.key_re ≡ none)
        ⊎ ((k : String) → is_qualified_name k ≡ true → IsFieldPath (e.to_field_path k)))

-- No text, or a qualified name.
abbrev IsNoneOrQualified : Option String → Type 0
IsNoneOrQualified none = Unit
IsNoneOrQualified (some k) = is_qualified_name k ≡ true

captured_lem : (o : Option String) → IsNoneOrQualified (captured o)
unfolding captured
captured_lem none = tt
captured_lem (some k) = elim (Bool-cases (is_qualified_name k)) [
  | inl good ↦ rw good good
  | inr bad ↦ rw bad tt
]

abbrev OkOrEmpty : String → Type 0
OkOrEmpty path = IsFieldPath path ⊎ (path ≡ "")

path_or-ok :
    (f : String → String) (m : Option String) (rest : String)
    → IsNoneOrQualified m
    → ((k : String) → is_qualified_name k ≡ true → IsFieldPath (f k))
    → OkOrEmpty rest
    → OkOrEmpty (path_or f m rest)
unfolding path_or
path_or-ok f none rest q g h = h
path_or-ok f (some k) rest q g h = inl (g k q)

match_entry-ok :
    (f : String → String) (re : Option (String → Option String)) (s rest : String)
    → (re ≡ none) ⊎ ((k : String) → is_qualified_name k ≡ true → IsFieldPath (f k))
    → OkOrEmpty rest
    → OkOrEmpty (path_or f (match_entry re s) rest)
unfolding match_entry path_or
match_entry-ok f none s rest ok h = h
match_entry-ok f (some find) s rest (inl e) h = ground (arith, e)
match_entry-ok f (some find) s rest (inr g) h =
    path_or-ok f (captured (find s)) rest (captured_lem (find s)) g h

search_field_refs-ok :
    (vs : List FieldRefEntry) (s : String)
    → s ≢ ""
    → All EntryOk vs
    → IsFieldPath (search_field_refs vs s) ⊎ (search_field_refs vs s ≡ "")
unfolding search_field_refs
search_field_refs-ok [] s n h = inr refl
search_field_refs-ok (v ∷ vs) s n (ok, h) = elim (Bool-cases (v.key == s)) [
  | inl same ↦ rw same (inl (ok.0 (λ e. n (sym ((eq_iff v.key s).0 same) ∙ e))))
  | inr other ↦ rw other (
      match_entry-ok v.to_field_path v.key_re s (search_field_refs vs s) ok.1
        (search_field_refs-ok vs s n h))
]

fixed_entry-ok :
    (key path : String)
    → any (λ p. p == path) downward_fields ≡ true
    → EntryOk (fixed_entry key path)
unfolding fixed_entry
fixed_entry-ok key path h = ((λ n. plain path h), inl refl)

pattern_entry-ok :
    (start path : String)
    → ((k : String) → is_qualified_name k ≡ true → IsFieldPath (path ⁀ "['" ⁀ k ⁀ "']"))
    → EntryOk (pattern_entry start path)
unfolding pattern_entry
pattern_entry-ok start path g = ((λ n. absurd (n refl)), inr g)

entries-ok : All EntryOk field_ref_valuefroms
unfolding field_ref_valuefroms
entries-ok = (
  fixed_entry-ok _ _ refl,
  (
    fixed_entry-ok _ _ refl,
    (
      fixed_entry-ok _ _ refl,
      (
        fixed_entry-ok _ _ refl,
        (
          fixed_entry-ok _ _ refl,
          (
            fixed_entry-ok _ _ refl,
            (
              fixed_entry-ok _ _ refl,
              (
                fixed_entry-ok _ _ refl,
                (
                  pattern_entry-ok "{fieldRef:metadata.labels['" _ label,
                  (pattern_entry-ok "{fieldRef:metadata.annotations['" _ annotation, tt),
                ),
              ),
            ),
          ),
        ),
      ),
    ),
  ),
)

-- A value that is not empty is turned into no field path, or into one of the eight plain fields
-- of a pod, or into a label or an annotation with a qualified name as its key.
pub convert_field_ref_path-IsFieldPath :
    (value : String)
    → value ≢ ""
    → IsFieldPath (convert_field_ref_path value) ⊎ (convert_field_ref_path value ≡ "")
unfolding convert_field_ref_path
convert_field_ref_path-IsFieldPath value n =
    search_field_refs-ok field_ref_valuefroms value n entries-ok
