-- ===== src/Webhook/Patch/Apply.antt =====
-- What the receiver does with a JSON patch (RFC 6902), on one array of the document: the operations
-- whose path starts with the array's own path change it, the others leave it as it is.
use datakit_operator.Common.{
  ℕ, zero, suc, ◌+◌, ◌<◌, Option, none, some, Bool, true, false, ◌&&◌, List, [], ◌∷◌, ◌++◌, map,
  String, ◌==◌, if◌then◌else◌, eqb, lookup, insert, is_some,
}
use datakit_operator.Webhook.Patch.{
  Token, field, index, end_of_array, Pointer, Value, Operation, add, replace, JsonPatchOperation,
  Patches, env_var, env_vars, text, texts, annotations_path,
}
use datakit_operator.Kubernetes.{EnvVar}
use mathlib.Core.Option
pub mod Arrays
pub mod Envs
pub mod Named
pub mod Annotations

unfoldable pub same_token : Token → Token → Bool
same_token (field a) (field b) = a == b
same_token (index i) (index j) = eqb i j
same_token end_of_array end_of_array = true
same_token _ _ = false

abbrev pub Annotations : Type 0
Annotations = List (String × String)

-- The rest of a path below `base`.
unfoldable pub below : Pointer → Pointer → Option Pointer
unfolding same_token
below [] path = some path
below (b ∷ base) [] = none
below (b ∷ base) (t ∷ path) = let rest = below base path in if same_token b t then rest else none

abbrev pub and_then {ℓ κ} : {A : Type ℓ} {B : Type κ} → (A → Option B) → Option A → Option B
and_then f none = none
and_then f (some a) = f a

unfoldable pub set_at {ℓ} : {A : Type ℓ} → ℕ → A → List A → Option (List A)
set_at i a [] = none
set_at zero a (x ∷ xs) = some (a ∷ xs)
set_at (suc i) a (x ∷ xs) = Option.map (◌∷◌ x) (set_at i a xs)

unfoldable pub insert_at {ℓ} : {A : Type ℓ} → ℕ → A → List A → Option (List A)
insert_at zero a xs = some (a ∷ xs)
insert_at (suc i) a [] = none
insert_at (suc i) a (x ∷ xs) = Option.map (◌∷◌ x) (insert_at i a xs)

module _ {ℓ} {A : Type ℓ} (unwrap : Value → Option A) (unwrap_all : Value → Option (List A)) where
  unfoldable pub change : Operation → Pointer → Value → List A → Option (List A)
  unfolding set_at insert_at
  change operation [] v xs = unwrap_all v
  change add (end_of_array ∷ []) v xs = Option.map (λ x. xs ++ x ∷ []) (unwrap v)
  change add (index i ∷ []) v xs = and_then (λ x. insert_at i x xs) (unwrap v)
  change replace (index i ∷ []) v xs = and_then (λ x. set_at i x xs) (unwrap v)
  change _ _ _ _ = none

  unfoldable pub change_below : Option Pointer → JsonPatchOperation → List A → Option (List A)
  unfolding change
  change_below none op xs = some xs
  change_below (some rest) op xs = change op.operation rest op.value xs

  unfoldable pub apply_patch : Pointer → JsonPatchOperation → List A → Option (List A)
  unfolding change_below below
  apply_patch base op xs = change_below (below base op.path) op xs

  unfoldable pub apply_patches : Pointer → Patches → List A → Option (List A)
  apply_patches base [] xs = some xs
  apply_patches base (op ∷ ops) xs = and_then (apply_patches base ops) (apply_patch base op xs)

unfoldable pub as_env_var : Value → Option EnvVar
as_env_var (env_var e) = some e
as_env_var _ = none

unfoldable pub as_env_vars : Value → Option (List EnvVar)
as_env_vars (env_vars es) = some es
as_env_vars _ = none

-- What the patch makes of the variables at `base`.
unfoldable pub patch_envs : Pointer → Patches → List EnvVar → Option (List EnvVar)
unfolding apply_patches as_env_var as_env_vars
patch_envs = apply_patches as_env_var as_env_vars

-- `replace` needs the key to be there, `add` does not.
unfoldable pub set_key : Operation → String → String → Annotations → Option Annotations
set_key add key v m = some (insert key v m)
set_key replace key v m = if is_some (lookup key m) then some (insert key v m) else none

unfoldable pub change_annotations : Operation → Pointer → Value → Annotations → Option Annotations
unfolding set_key
change_annotations operation [] (texts new) m = some new
change_annotations operation (field key ∷ []) (text v) m = set_key operation key v m
change_annotations _ _ _ _ = none

unfoldable pub annotations_below :
    Option Pointer → JsonPatchOperation → Annotations → Option Annotations
unfolding change_annotations
annotations_below none op m = some m
annotations_below (some rest) op m = change_annotations op.operation rest op.value m

unfoldable pub patch_annotations : Patches → Annotations → Option Annotations
unfolding annotations_below below
patch_annotations [] m = some m
patch_annotations (op ∷ ops) m =
    and_then (patch_annotations ops) (annotations_below (below annotations_path op.path) op m)
