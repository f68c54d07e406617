-- ===== src/Tests/Values.antt =====
-- The laws of pkg/envbuilder at one value, and the path that the empty value is turned into.
use datakit_operator.Common.{◌≡◌, ◌≢◌, ◌⊎◌, refl, ap, true, String, List, [], ◌∷◌, ◌==◌, All}
use mathlib.Core.Bool.{false≢true}
use datakit_operator.Kubernetes.{EnvVar, Container, empty_container}
use datakit_operator.EnvBuilder.{build_envs, filter_and_set_resource_field_ref}
use datakit_operator.EnvBuilder.Filtered.{IsResolved, filter_and_set_resource_field_ref-IsResolved}
use datakit_operator.Common.Text.{split, bytes}
use datakit_operator.EnvBuilder.Names.{is_qualified_name}
use datakit_operator.EnvBuilder.Paths.{convert_field_ref_path}
use datakit_operator.EnvBuilder.Paths.WellFormed.{IsFieldPath, convert_field_ref_path-IsFieldPath}

abbrev app_label : String
app_label = "{fieldRef:metadata.labels['app']}"

label_path : convert_field_ref_path app_label ≡ "metadata.labels['app']"
unfolding convert_field_ref_path is_qualified_name split bytes
label_path = refl

empty_value_path : convert_field_ref_path "" ≡ "metadata.labels['']"
unfolding convert_field_ref_path
empty_value_path = refl

app_label_given : app_label ≢ ""
app_label_given e = false≢true (ap (λ s. s == "") e)

convert_field_ref_path-IsFieldPath_example :
    IsFieldPath (convert_field_ref_path app_label) ⊎ (convert_field_ref_path app_label ≡ "")
convert_field_ref_path-IsFieldPath_example =
    convert_field_ref_path-IsFieldPath app_label app_label_given

abbrev app : Container
app = record (empty_container "app") {
  resources = record { requests = []; limits = ("cpu", "1") ∷ [] };
}

abbrev configured : List EnvVar
configured =
    build_envs (λ k. true)
      (("CPU", "{resourceFieldRef:limits.cpu}") ∷ ("MEM", "{resourceFieldRef:limits.memory}") ∷ [])
      true

filter_and_set_resource_field_ref-IsResolved_example :
    All (IsResolved app) (filter_and_set_resource_field_ref configured (app ∷ []))
filter_and_set_resource_field_ref-IsResolved_example =
    filter_and_set_resource_field_ref-IsResolved configured app []
