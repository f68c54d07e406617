-- ===== src/EnvBuilder/Paths.antt =====
-- pkg/envbuilder/valuefrom.go: what a value refers to. The regular expressions of the tables are fixed, so
-- each is written as the function that returns its captured texts.
pub mod WellFormed
use Prim.Native.Char.{code}
use Prim.Native.String
use datakit_operator.Common.{
  ℕ, Option, none, some, Bool, true, false, not, ◌&&◌, ◌||◌, List, [], ◌∷◌, String, ◌==◌,
  if◌then◌else◌, eqb,
}
use datakit_operator.Common.Text.{◌⁀◌, before_char, from_char}
use datakit_operator.EnvBuilder.Names.{
  is_qualified_name, is_dns1123_subdomain, every_char, is_name_char,
}

-- The text after a prefix.
after_prefix : String → String → Option String
after_prefix String.[] s = some s
after_prefix (String.◌∷◌ d p) String.[] = none
after_prefix (String.◌∷◌ d p) (String.◌∷◌ c s) =
    let rest = after_prefix p s in if eqb (code d) (code c) then rest else none

-- ([^']+)'\]\}$
quoted : Option String → Option String
unfolding before_char from_char
quoted none = none
quoted (some s) =
    if not (before_char 39 s == "") && from_char 39 s == "']}"
    then some (before_char 39 s)
    else none

-- An entry of `fieldRefValuefroms`; `key` is empty where the entry has a regular expression.
pub record FieldRefEntry : Type 0 where
  pub key : String
  pub key_re : Option (String → Option String)
  pub to_field_path : String → String

fixed_entry : String → String → FieldRefEntry
fixed_entry key path = record { key = key; key_re = none; to_field_path = λ args. path }

pattern_entry : String → String → FieldRefEntry
unfolding quoted after_prefix
pattern_entry start path = record {
  key = "";
  key_re = some (λ s. quoted (after_prefix start s));
  to_field_path = λ args. path ⁀ "['" ⁀ args ⁀ "']";
}

unfoldable pub field_ref_valuefroms : List FieldRefEntry
unfolding fixed_entry pattern_entry
field_ref_valuefroms =
    fixed_entry "{fieldRef:metadata.name}" "metadata.name"
    ∷ fixed_entry "{fieldRef:metadata.namespace}" "metadata.namespace"
    ∷ fixed_entry "{fieldRef:metadata.uid}" "metadata.uid"
    ∷ fixed_entry "{fieldRef:spec.serviceAccountName}" "spec.serviceAccountName"
    ∷ fixed_entry "{fieldRef:spec.nodeName}" "spec.nodeName"
    ∷ fixed_entry "{fieldRef:status.hostIP}" "status.hostIP"
    ∷ fixed_entry "{fieldRef:status.hostIPs}" "status.hostIPs"
    ∷ fixed_entry "{fieldRef:status.podIP}" "status.podIP"
    ∷ pattern_entry "{fieldRef:metadata.labels['" "metadata.labels"
    ∷ pattern_entry "{fieldRef:metadata.annotations['" "metadata.annotations"
    ∷ []

-- The captured name, if the entry has a regular expression that matches and the name is qualified.
captured : Option String → Option String
captured none = none
captured (some args) = if is_qualified_name args then some args else none

match_entry : Option (String → Option String) → String → Option String
unfolding captured
match_entry none s = none
match_entry (some find) s = captured (find s)

path_or : (String → String) → Option String → String → String
path_or to_field_path none rest = rest
path_or to_field_path (some args) rest = to_field_path args

unfoldable pub search_field_refs : List FieldRefEntry → String → String
unfolding match_entry path_or
search_field_refs [] s = ""
search_field_refs (v ∷ vs) s =
    let rest = search_field_refs vs s in
    if v.key == s then v.to_field_path "" else path_or v.to_field_path (match_entry v.key_re s) rest

unfoldable pub convert_field_ref_path : String → String
unfolding search_field_refs field_ref_valuefroms
convert_field_ref_path s = search_field_refs field_ref_valuefroms s

unfoldable pub convert_resource_field_ref_path : String → String
convert_resource_field_ref_path s =
    if s == "{resourceFieldRef:limits.cpu}"
    then "limits.cpu"
    else if s == "{resourceFieldRef:limits.memory}"
    then "limits.memory"
    else if s == "{resourceFieldRef:requests.cpu}"
    then "requests.cpu"
    else if s == "{resourceFieldRef:requests.memory}"
    then "requests.memory"
    else ""

-- \.([-._A-Za-z0-9]+)\}$
secret_key : Option String → Option String
unfolding before_char from_char every_char
secret_key none = none
secret_key (some s) =
    if not (before_char 125 s == "")
      && every_char is_name_char (before_char 125 s)
      && from_char 125 s == "}"
    then some (before_char 125 s)
    else none

checked_secret : (String → Bool) → String → Option String → Option (String × String)
checked_secret is_config_map_key name none = none
checked_secret is_config_map_key name (some key) =
    if not (name == "") && is_dns1123_subdomain name && is_config_map_key key
    then some (name, key)
    else none

secret_in : (String → Bool) → Option String → Option (String × String)
unfolding checked_secret secret_key after_prefix before_char from_char
secret_in is_config_map_key none = none
secret_in is_config_map_key (some s) =
    checked_secret is_config_map_key (before_char 46 s)
      (secret_key (after_prefix "." (from_char 46 s)))

unfoldable pub convert_secret_key_ref : (String → Bool) → String → Option (String × String)
unfolding secret_in after_prefix
convert_secret_key_ref is_config_map_key s =
    secret_in is_config_map_key (after_prefix "{secretKeyRef:" s)
