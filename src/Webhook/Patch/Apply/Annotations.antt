-- ===== src/Webhook/Patch/Apply/Annotations.antt =====
-- The patch of the annotations (buildAnnotationPatch), applied to the old annotations.
use datakit_operator.Common.{
  Option, none, some, true, List, [], ◌∷◌, ◌++◌, map, String, ◌≡◌, refl, sym, ap, ◌∙◌, ◌==◌, ◌||◌,
  if◌then◌else◌, ◌⊎◌, eq_iff, Bool-cases, Option-cases, inl, inr, lookup, insert, is_some, any,
  arith,
}
use datakit_operator.Common.Text.{sort_strings, insert_sorted}
use datakit_operator.Webhook.Patch.{
  field, Pointer, text, texts, Patches, add_patch, replace_patch, annotations_path, value_or_empty,
  annotation_change, annotation_changes, build_annotation_patch,
}
use datakit_operator.Webhook.Patch.Apply.{
  Annotations, below, same_token, set_key, change_annotations, annotations_below, patch_annotations,
}

pub lookup-insert :
    (k j v : String) (m : Annotations)
    → lookup k (insert j v m) ≡ (if j == k then some v else lookup k m)
lookup-insert k j v [] = refl
lookup-insert k j v ((i, w) ∷ m) =
    ground (arith, lookup-insert k j v m, eq_iff i j, eq_iff j k, eq_iff i k)

-- The value that the new annotations give a key.
abbrev wanted : Annotations → String → String
wanted new k = value_or_empty (lookup k new)

-- Some keys were patched, the others are as they were.
abbrev IsBetween : Annotations → Annotations → Annotations → Type 0
IsBetween old new m =
    (k : String) → (lookup k m ≡ lookup k old) ⊎ (lookup k m ≡ some (wanted new k))

record Patched (new : Annotations) (keys : List String) (ps : Patches) (m : Annotations)
    : Type 0 where
  result : Annotations
  accepted : patch_annotations ps m ≡ some result
  shows :
      (k : String)
      → lookup k result ≡ (if any (λ j. j == k) keys then some (wanted new k) else lookup k m)

any-insert_sorted :
    (k s : String) (ts : List String)
    → any (λ j. j == k) (insert_sorted s ts) ≡ (s == k || any (λ j. j == k) ts)
unfolding insert_sorted
any-insert_sorted k s [] = refl
any-insert_sorted k s (t ∷ ts) = ground (arith, any-insert_sorted k s ts)

any-sort_strings :
    (k : String) (ts : List String) → any (λ j. j == k) (sort_strings ts) ≡ any (λ j. j == k) ts
unfolding sort_strings
any-sort_strings k [] = refl
any-sort_strings k (t ∷ ts) =
    any-insert_sorted k t (sort_strings ts) ∙ ap (λ b. t == k || b) (any-sort_strings k ts)

any-keys :
    (k : String) (m : Annotations) → any (λ j. j == k) (map (λ e. e.0) m) ≡ is_some (lookup k m)
any-keys k [] = refl
any-keys k ((j, v) ∷ m) = ground (arith, any-keys k m)

abbrev key_path : String → Pointer
key_path key = annotations_path ++ field key ∷ []

adds_key :
    (key v : String) (rest : Patches) (m : Annotations)
    → patch_annotations (add_patch (key_path key) (text v) ∷ rest) m
      ≡ patch_annotations rest (insert key v m)
unfolding patch_annotations below same_token annotations_below change_annotations set_key add_patch
adds_key key v rest m = refl

replaces_key :
    (key v : String) (rest : Patches) (m : Annotations)
    → is_some (lookup key m) ≡ true
    → patch_annotations (replace_patch (key_path key) (text v) ∷ rest) m
      ≡ patch_annotations rest (insert key v m)
unfolding patch_annotations below same_token annotations_below change_annotations set_key
    replace_patch
replaces_key key v rest m h = rw (h) refl

adds_all :
    (new m : Annotations)
    → patch_annotations (add_patch annotations_path (texts new) ∷ []) m ≡ some new
unfolding patch_annotations below same_token annotations_below change_annotations add_patch
adds_all new m = refl

record Step (m : Annotations) (key v : String) (ps rest : Patches) : Type 0 where
  next : Annotations
  runs : patch_annotations ps m ≡ patch_annotations rest next
  sets : (k : String) → lookup k next ≡ (if key == k then some v else lookup k m)

Step-insert :
    (m : Annotations) (key v : String) (ps rest : Patches)
    → patch_annotations ps m ≡ patch_annotations rest (insert key v m)
    → Step m key v ps rest
Step-insert m key v ps rest e = record {
  next = insert key v m;
  runs = e;
  sets = λ k. lookup-insert k key v m;
}

Step-keep :
    (m : Annotations) (key v : String) (rest : Patches)
    → lookup key m ≡ some v
    → Step m key v rest rest
Step-keep m key v rest e = record {
  next = m;
  runs = refl;
  sets = λ k. ground (arith, eq_iff key k, e);
}

between_keeps :
    (old new m : Annotations) (key v : String)
    → lookup key old ≡ some v
    → IsBetween old new m
    → is_some (lookup key m) ≡ true
between_keeps old new m key v e b = elim (b key) [
  | inl was ↦ rw (was, e) refl
  | inr is ↦ rw is refl
]

between_same :
    (old new m : Annotations) (key v : String)
    → lookup key old ≡ some v
    → (v == wanted new key) ≡ true
    → IsBetween old new m
    → lookup key m ≡ some (wanted new key)
between_same old new m key v e same b = elim (b key) [
  | inl was ↦ was ∙ e ∙ ap some ((eq_iff v (wanted new key)).0 same)
  | inr is ↦ is
]

Step-IsBetween :
    (old new m : Annotations) (key : String) (ps rest : Patches)
    → IsBetween old new m
    → (s : Step m key (wanted new key) ps rest) → IsBetween old new s.next
Step-IsBetween old new m key ps rest b s k = elim (Bool-cases (key == k)) [
  | inl same ↦ inr (s.sets k ∙ (rw same (ap (λ j. some (wanted new j)) ((eq_iff key k).0 same))))
  | inr other ↦ rw (s.sets k, other) (b k)
]

annotation_change-Step :
    (old new m : Annotations) (key : String) (rest : Patches) (o : Option String)
    → lookup key old ≡ o
    → IsBetween old new m
    → Step m key (wanted new key) (annotation_change key o (wanted new key) rest) rest
unfolding annotation_change
annotation_change-Step old new m key rest none e b =
    Step-insert m key _ _ rest (adds_key key _ rest m)
annotation_change-Step old new m key rest (some v) e b = elim (Bool-cases (v == wanted new key)) [
  | inl same ↦
      rw same (Step-keep m key (wanted new key) rest (between_same old new m key v e same b))
  | inr other ↦
      rw other
        (Step-insert m key _ _ rest (replaces_key key _ rest m (between_keeps old new m key v e b)))
]

annotation_changes-Patched :
    (old new m : Annotations) (keys : List String)
    → IsBetween old new m
    → Patched new keys (annotation_changes old new keys) m
unfolding annotation_changes patch_annotations
annotation_changes-Patched old new m [] b = record {
  result = m;
  accepted = refl;
  shows = λ k. refl;
}
annotation_changes-Patched old new m (key ∷ keys) b =
    let s =
      annotation_change-Step old new m key (annotation_changes old new keys) (lookup key old) refl
        b in
    let p = annotation_changes-Patched old new s.next keys (Step-IsBetween old new m key _ _ b s) in
    let shows_more : (k : String)
        → (if any (λ j. j == k) keys then some (wanted new k) else lookup k s.next)
          ≡ (if key == k || any (λ j. j == k) keys then some (wanted new k) else lookup k m) =
      λ k. ground (arith, s.sets k, eq_iff key k) in
    record {
      result = p.result;
      accepted = s.runs ∙ p.accepted;
      shows = λ k. p.shows k ∙ shows_more k;
    }

-- The new annotations over the old ones.
abbrev pub over : Option String → Option String → Option String
over none old = old
over (some v) old = some v

over-none : (o : Option String) → over o none ≡ o
over-none none = refl
over-none (some v) = refl

no_patches : (m : Annotations) → patch_annotations [] m ≡ some m
unfolding patch_annotations
no_patches m = refl

over-wanted :
    (new old : Annotations) (k : String)
    → (if is_some (lookup k new) then some (wanted new k) else lookup k old)
      ≡ over (lookup k new) (lookup k old)
over-wanted new old k = elim (Option-cases (lookup k new)) [
  | inl e ↦ rw e refl
  | inr (v, e) ↦ rw e refl
]

-- The receiver accepts the patch that buildAnnotationPatch makes of two maps of annotations (no
-- replace meets a missing key), and in the result every key of the new map has its new value and
-- every other key the value it had.
pub build_annotation_patch-apply :
    (old new : Annotations)
    → (m : Annotations) × (patch_annotations (build_annotation_patch old new) old ≡ some m)
      × ((k : String) → lookup k m ≡ over (lookup k new) (lookup k old))
unfolding build_annotation_patch
build_annotation_patch-apply old [] = (old, no_patches old, λ k. refl)
build_annotation_patch-apply [] (n ∷ news) =
    (n ∷ news, adds_all (n ∷ news) [], λ k. sym (over-none (lookup k (n ∷ news))))
build_annotation_patch-apply (o ∷ olds) (n ∷ news) =
    let keys = sort_strings (map (λ e. e.0) (n ∷ news)) in
    let p = annotation_changes-Patched (o ∷ olds) (n ∷ news) (o ∷ olds) keys (λ k. inl refl) in
    (
      p.result,
      p.accepted,
      λ k.
          p.shows k
          ∙ ap (λ b. if b then some (wanted (n ∷ news) k) else lookup k (o ∷ olds))
              (any-sort_strings k (map (λ e. e.0) (n ∷ news)) ∙ any-keys k (n ∷ news))
          ∙ over-wanted (n ∷ news) (o ∷ olds) k,
    )
