-- ===== src/Injector/OTel/Validation.antt =====
-- The checks of apis/webhook/injector/otel.go before an injection: the first reason against it, if there is
-- one.
use mathlib.Core.Bool.{decide}
use datakit_operator.Common.{
  Option, none, some, Bool, true, false, not, ◌&&◌, ◌||◌, List, [], ◌∷◌, String, ◌==◌,
  if◌then◌else◌, lookup, all, eqb, ltb, is_some, is_empty,
}
use datakit_operator.Common.Text.{contains, is_blank, String-discrete}
use datakit_operator.Common.Trim.{trim_suffix, count_text}
use datakit_operator.Kubernetes.{
  EnvVar, VolumeMount, VolumeMount-discrete, Volume, Container, Pod, SecurityContext,
  ResourceRequirements, is_empty_dir,
}
use datakit_operator.Injector.Setting.{Setting}
use datakit_operator.Injector.DdTrace.{
  ddtrace_init_container_name, otel_init_container_name, ddtrace_mount_path,
}
use datakit_operator.Injector.OTel.{
  Library, java, python, nodejs, otel_volume_name, mount_path, options_key,
}
use datakit_operator.Injector.OTel.Values.{
  python_path_prefix, python_mount_path, contains_python_path_component,
  is_otel_python_path_injected, count_nodejs_require_options, contains_datadog_nodejs_require,
}

pub data Refusal : Type 0 where
  empty_image no_containers datadog_init incompatible_init not_an_empty_dir : Refusal
  datadog_mount incompatible_mount sub_path : Refusal
  duplicate_variable variable_value_from datadog_library incompatible_variable : Refusal

-- The first of two reasons.
abbrev pub or_refuse : Option Refusal → Option Refusal → Option Refusal
or_refuse none r = r
or_refuse (some refusal) r = some refusal

abbrev pub refuse_if : Bool → Refusal → Option Refusal
refuse_if true refusal = some refusal
refuse_if false refusal = none

-- What a value of the variable has against the injection.
unfoldable pub value_refusal : Library → String → Option Refusal
unfolding contains contains_python_path_component is_otel_python_path_injected
    contains_datadog_nodejs_require count_nodejs_require_options count_text
value_refusal java v = refuse_if (contains v "dd-java-agent.jar") datadog_library
value_refusal python v =
    or_refuse (refuse_if (contains_python_path_component v ddtrace_mount_path) datadog_library) (
      refuse_if
        (not (is_otel_python_path_injected v)
          && (contains_python_path_component v python_path_prefix
              || contains_python_path_component v python_mount_path))
        incompatible_variable)
value_refusal nodejs v =
    let required = count_nodejs_require_options v in
    let paths = count_text v "otel-auto-instrumentation-nodejs" in
    or_refuse
      (refuse_if (contains v ddtrace_mount_path || contains_datadog_nodejs_require v)
        datadog_library)
      (refuse_if (ltb 1 required || (ltb 0 paths && (not (eqb required 1) || not (eqb paths 1))))
        incompatible_variable)

variable_refusal : Library → Bool → EnvVar → Option Refusal
unfolding value_refusal
variable_refusal library seen e = or_refuse (refuse_if seen duplicate_variable) (
    or_refuse (refuse_if (is_some e.value_from) variable_value_from)
      (value_refusal library e.value))

-- The loop over the variables of a container; `seen` says that the variable was met before.
unfoldable pub variables_refusal : Library → Bool → List EnvVar → Option Refusal
unfolding variable_refusal
variables_refusal library seen [] = none
variables_refusal library seen (e ∷ es) =
    let named = e.name == options_key library in
    or_refuse (if named then variable_refusal library seen e else none)
      (variables_refusal library (seen || named) es)

unfoldable pub options_refusal : Library → List Container → Option Refusal
unfolding variables_refusal
options_refusal library [] = none
options_refusal library (c ∷ cs) =
    or_refuse (variables_refusal library false c.env) (options_refusal library cs)

abbrev same_value : Option String → String → Bool
same_value none v = false
same_value (some w) v = w == v

pub Texts-discrete : Discrete (List String)
Texts-discrete = hlevel String-discrete

-- Maps with the same entries.
abbrev within : List (String × String) → List (String × String) → Bool
within a b = all (λ kv. same_value (lookup kv.0 b) kv.1) a

abbrev same_map : List (String × String) → List (String × String) → Bool
same_map a b = within a b && within b a

abbrev same_resources : ResourceRequirements → ResourceRequirements → Bool
same_resources a b = same_map a.requests b.requests && same_map a.limits b.limits

abbrev same_texts : List String → List String → Bool
same_texts a b = decide (Texts-discrete a b)

-- `securityContextCompatible`
unfoldable pub security_context_compatible :
    Setting → Option SecurityContext → Option SecurityContext → Bool
security_context_compatible s none existing = true
security_context_compatible s (some desired) none = false
security_context_compatible s (some desired) (some existing) = s.deep_derivative desired existing

-- `otelInitVolumeMount`: the mount of the volume, if there is just one
init_mount_after : Option VolumeMount → List VolumeMount → Option VolumeMount
init_mount_after found [] = found
init_mount_after none (m ∷ ms) =
    init_mount_after (if m.name == otel_volume_name then some m else none) ms
init_mount_after (some first) (m ∷ ms) =
    let rest = init_mount_after (some first) ms in if m.name == otel_volume_name then none else rest

unfoldable pub otel_init_volume_mount : List VolumeMount → Option VolumeMount
unfolding init_mount_after
otel_init_volume_mount ms = init_mount_after none ms

-- The mounts with the name or the path of the desired one: they must equal it, and there must be one.
owned_once : VolumeMount → Bool → List VolumeMount → Bool
owned_once desired met [] = met
owned_once desired met (m ∷ ms) =
    let owned = m.name == desired.name || m.mount_path == desired.mount_path in
    let fits = not owned || (decide (VolumeMount-discrete m desired) && not met) in
    fits && owned_once desired (met || owned) ms

abbrev mounts_compatible : List VolumeMount → Option VolumeMount → Bool
mounts_compatible existing none = false
mounts_compatible existing (some desired) = owned_once desired false existing

unfoldable pub otel_init_container_compatible : Setting → Container → Container → Bool
unfolding security_context_compatible otel_init_volume_mount owned_once
otel_init_container_compatible s existing desired =
    (existing.image == desired.image
      && same_texts existing.command desired.command
      && same_texts existing.args desired.args
      && existing.image_pull_policy == desired.image_pull_policy
      && same_resources existing.resources desired.resources)
    && security_context_compatible s desired.security_context existing.security_context
    && mounts_compatible existing.volume_mounts (otel_init_volume_mount desired.volume_mounts)

unfoldable pub init_containers_refusal : Setting → Container → List Container → Option Refusal
unfolding otel_init_container_compatible
init_containers_refusal s desired [] = none
init_containers_refusal s desired (c ∷ cs) =
    or_refuse
      (if c.name == ddtrace_init_container_name
        then some datadog_init
        else refuse_if
            (c.name == otel_init_container_name && not (otel_init_container_compatible s c desired))
            incompatible_init)
      (init_containers_refusal s desired cs)

unfoldable pub volumes_refusal : List Volume → Option Refusal
volumes_refusal [] = none
volumes_refusal (v ∷ vs) =
    or_refuse
      (refuse_if (v.name == otel_volume_name && not (is_empty_dir v.source)) not_an_empty_dir)
      (volumes_refusal vs)

abbrev differ : Bool → Bool → Bool
differ true b = not b
differ false b = b

unfoldable pub mount_refusal : String → VolumeMount → Option Refusal
unfolding trim_suffix
mount_refusal path m =
    let uses_name = m.name == otel_volume_name in
    or_refuse
      (refuse_if
        (m.mount_path == ddtrace_mount_path || trim_suffix m.mount_path "/" == ddtrace_mount_path)
        datadog_mount)
      (or_refuse (refuse_if (differ uses_name (m.mount_path == path)) incompatible_mount)
        (refuse_if (uses_name && (not (m.sub_path == "") || not (m.sub_path_expr == ""))) sub_path))

mounts_refusal : String → List VolumeMount → Option Refusal
unfolding mount_refusal
mounts_refusal path [] = none
mounts_refusal path (m ∷ ms) = or_refuse (mount_refusal path m) (mounts_refusal path ms)

unfoldable pub containers_refusal : String → List Container → Option Refusal
unfolding mounts_refusal
containers_refusal path [] = none
containers_refusal path (c ∷ cs) =
    or_refuse (mounts_refusal path c.volume_mounts) (containers_refusal path cs)

-- `validateCommonInjection`
unfoldable pub common_refusal : Setting → String → Container → String → Pod → Option Refusal
unfolding is_blank init_containers_refusal volumes_refusal containers_refusal
common_refusal s configured_image desired path pod =
    or_refuse (refuse_if (is_blank configured_image) empty_image) (
      or_refuse (refuse_if (is_empty pod.spec.containers) no_containers) (
        or_refuse (init_containers_refusal s desired pod.spec.init_containers) (
          or_refuse (volumes_refusal pod.spec.volumes)
            (containers_refusal path pod.spec.containers))))

-- The three `validate…Injection`.
unfoldable pub refusal : Setting → Library → String → Container → Pod → Option Refusal
unfolding common_refusal options_refusal
refusal s library configured_image desired pod =
    or_refuse (common_refusal s configured_image desired (mount_path library) pod)
      (options_refusal library pod.spec.containers)
