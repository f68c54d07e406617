-- ===== src/EnvBuilder/Filtered.antt =====
-- The variables after FilterAndSetResourceFieldRefEnvVars.
use datakit_operator.Common.{
  Option, none, some, true, List, [], ◌∷◌, ◌≡◌, refl, All, Bool-cases, inl, inr,
}
use datakit_operator.Kubernetes.{EnvVar, EnvVarSource, ResourceFieldSelector, Container}
use datakit_operator.EnvBuilder.{
  has_resource_in_container, is_kept, resource_ref, name_resource, name_source, filter_envs,
  filter_and_set_resource_field_ref,
}

-- A variable that reads a resource reads one that the container has, and names that container.
abbrev Reads : Container → Option ResourceFieldSelector → Type 0
Reads c none = Unit
Reads c (some r) = (r.container_name ≡ c.name) × (has_resource_in_container r.resource c ≡ true)

abbrev pub IsResolved : Container → EnvVar → Type 0
IsResolved c e = Reads c (resource_ref e.value_from)

named-Reads :
    (c : Container) (o : Option ResourceFieldSelector)
    → is_kept c o ≡ true
    → Reads c (name_resource c.name o)
named-Reads c none h = tt
named-Reads c (some r) h = (refl, h)

named-IsResolved :
    (c : Container) (o : Option EnvVarSource)
    → is_kept c (resource_ref o) ≡ true
    → Reads c (resource_ref (name_source c.name o))
named-IsResolved c none h = tt
named-IsResolved c (some source) h = named-Reads c source.resource_field_ref h

-- In a pod with a container, every variable that is left and reads a resource names the first
-- container, and that container has the resource.
pub filter_and_set_resource_field_ref-IsResolved :
    (envs : List EnvVar) (first : Container) (rest : List Container)
    → All (IsResolved first) (filter_and_set_resource_field_ref envs (first ∷ rest))
unfolding filter_and_set_resource_field_ref filter_envs
filter_and_set_resource_field_ref-IsResolved [] first rest = tt
filter_and_set_resource_field_ref-IsResolved (e ∷ es) first rest =
    elim (Bool-cases (is_kept first (resource_ref e.value_from))) [
      | inl kept ↦ rw kept (
        named-IsResolved first e.value_from kept,
        filter_and_set_resource_field_ref-IsResolved es first rest,
      )
      | inr left_out ↦ rw left_out (filter_and_set_resource_field_ref-IsResolved es first rest)
    ]
