-- ===== src/Injector/Flameshot/Served.antt =====
-- What the injection of flameshot adds to a pod and what it leaves, and that a second one changes nothing.
use datakit_operator.Common.{
  Option, none, some, true, false, Bool, List, [], ◌∷◌, ◌++◌, map, String, ◌≡◌, refl, ap, ◌∙◌, ◌==◌,
  ◌⊎◌, inl, inr, Bool-cases, if-cases, if◌then◌else◌, arith,
}
use datakit_operator.Common.Int.{ℤ}
use datakit_operator.Common.Decimal.{IsInt32, parse_int32, parse_int32-IsInt32}
use datakit_operator.Kubernetes.{EnvVar, Container, ContainerPort, Pod, ResourceRequirements}
use datakit_operator.Manager.{add_container, contains_container, add_volume, add_volume_mount}
use datakit_operator.Config.Resource.{pull_policy}
use datakit_operator.Config.Rules.{FlameshotRule}
use datakit_operator.Injector.Setting.{Setting, namespace_of}
use datakit_operator.Injector.Added.{
  bare, bare_containers, add_volume_mount-bare, add_container-bare, Settled, KeepsResult,
  Settled-from,
}
use datakit_operator.Injector.Profiler.{reset_spec}
use datakit_operator.Injector.Flameshot.{
  flameshot_container_name, matching_rule, flameshot_envs, profiling_path, flameshot_port, port_or,
  is_zero, flameshot_container, inject_volume, inject_volume_mount, add_prometheus_annotations,
  has_prometheus_annotation, finish, with_envs, inject_matched, inject_flameshot,
}

abbrev pub port : ℤ → ContainerPort
port z = record { name = "flameshot-port"; container_port = z; protocol = "TCP" }

-- The pod is as it was; or it shares its processes and has one more container, which serves a port of
-- 32 bits that is not 0, behind the others, which are as they were but for their mounts.
abbrev pub Profiles : Pod → Pod → Type 0
Profiles pod new =
    (new ≡ pod)
    ⊎ ((p : Container) × (z : ℤ) × (p.name ≡ flameshot_container_name)
        × (p.ports ≡ port z ∷ [])
        × IsInt32 z
        × (is_zero z ≡ false)
        × (new.spec.share_process_namespace ≡ some true)
        × (bare_containers new ≡ bare_containers pod ++ bare p ∷ []))

abbrev pub ProfilesResult : Pod → Option Pod → Type 0
ProfilesResult pod none = Unit
ProfilesResult pod (some new) = Profiles pod new

port_or-IsInt32 :
    (rest : ℤ) (o : Option ℤ)
    → IsInt32 rest
    → ((z : ℤ) → o ≡ some z → IsInt32 z)
    → IsInt32 (port_or rest o)
port_or-IsInt32 rest none r h = r
port_or-IsInt32 rest (some z) r h = h z refl

flameshot_port-IsInt32 : (es : List EnvVar) → IsInt32 (flameshot_port es)
unfolding flameshot_port
flameshot_port-IsInt32 [] = omega arith
flameshot_port-IsInt32 (e ∷ es) =
    if-cases IsInt32 (e.name == "FLAMESHOT_HTTP_LOCAL_PORT")
      (port_or (flameshot_port es) (parse_int32 e.value)) (flameshot_port es)
      (port_or-IsInt32 (flameshot_port es) (parse_int32 e.value) (flameshot_port-IsInt32 es)
        (parse_int32-IsInt32 e.value))
      (flameshot_port-IsInt32 es)

annotated_spec :
    (enabled : Bool) (z : ℤ) (pod : Pod)
    → (if enabled then add_prometheus_annotations z pod else pod).spec ≡ pod.spec
unfolding add_prometheus_annotations
annotated_spec false z pod = refl
annotated_spec true z pod = elim (Bool-cases (has_prometheus_annotation pod.annotations)) [
  | inl there ↦ rw there refl
  | inr absent ↦ rw absent refl
]

-- The pod before the annotations.
abbrev placed : Container → String → Pod → Pod
placed c path pod = inject_volume_mount path (inject_volume (add_container c (reset_spec pod)))

reset_spec-absent :
    (name : String) (pod : Pod)
    → contains_container name pod ≡ false
    → contains_container name (reset_spec pod) ≡ false
unfolding reset_spec contains_container
reset_spec-absent name pod h = h

placed_shares :
    (c : Container) (path : String) (pod : Pod)
    → (placed c path pod).spec.share_process_namespace ≡ some true
unfolding inject_volume_mount add_volume_mount inject_volume add_volume add_container reset_spec
placed_shares c path pod = refl

volume-bare : (pod : Pod) → bare_containers (inject_volume pod) ≡ bare_containers pod
unfolding inject_volume add_volume
volume-bare pod = refl

reset-bare : (pod : Pod) → bare_containers (reset_spec pod) ≡ bare_containers pod
unfolding reset_spec
reset-bare pod = refl

mount-bare :
    (path : String) (pod : Pod)
    → bare_containers (inject_volume_mount path pod) ≡ bare_containers pod
unfolding inject_volume_mount
mount-bare path pod = add_volume_mount-bare _ pod

placed-bare :
    (c : Container) (path : String) (pod : Pod)
    → contains_container c.name pod ≡ false
    → bare_containers (placed c path pod) ≡ bare_containers pod ++ bare c ∷ []
placed-bare c path pod h =
    mount-bare path (inject_volume (add_container c (reset_spec pod)))
    ∙ volume-bare (add_container c (reset_spec pod))
    ∙ add_container-bare c (reset_spec pod) (reset_spec-absent c.name pod h)
    ∙ ap (λ cs. cs ++ bare c ∷ []) (reset-bare pod)

module _ (rule : FlameshotRule) (envs : List EnvVar) (pod : Pod) where
  finish-Profiles :
      (o : Option ResourceRequirements)
      → contains_container flameshot_container_name pod ≡ false
      → is_zero (flameshot_port envs) ≡ false
      → ProfilesResult pod (finish rule envs (profiling_path envs) (flameshot_port envs) pod o)
  unfolding flameshot_container
  finish-Profiles none absent given = tt
  finish-Profiles (some resources) absent given =
      let policy : String = pull_policy rule.rule.image_pull_policy in
      let c : Container =
        flameshot_container rule.rule.image policy resources envs (flameshot_port envs) in
      let e =
        annotated_spec rule.enable_prometheus_annotations (flameshot_port envs)
          (placed c (profiling_path envs) pod) in
      inr (
        c,
        flameshot_port envs,
        refl,
        refl,
        flameshot_port-IsInt32 envs,
        given,
        ap (λ s. s.share_process_namespace) e ∙ placed_shares c (profiling_path envs) pod,
        ap (λ s. map bare s.containers) e ∙ placed-bare c (profiling_path envs) pod absent,
      )

  with_envs-Profiles :
      (s : Setting)
      → contains_container flameshot_container_name pod ≡ false
      → ProfilesResult pod (with_envs s rule pod envs)
  with_envs-Profiles s absent = elim (Bool-cases (profiling_path envs == "")) [
    | inl no_path ↦ rw no_path (inl refl)
    | inr path ↦ elim (Bool-cases (is_zero (flameshot_port envs))) [
      | inl no_port ↦ rw (path, no_port) (inl refl)
      | inr given ↦ rw (path, given) (finish-Profiles _ absent given)
    ]
  ]

inject_matched-Profiles :
    (s : Setting) (pod : Pod) (o : Option FlameshotRule)
    → contains_container flameshot_container_name pod ≡ false
    → ProfilesResult pod (inject_matched s pod o)
inject_matched-Profiles s pod none absent = inl refl
inject_matched-Profiles s pod (some rule) absent = elim (Bool-cases (rule.processes == "")) [
  | inl no_processes ↦ rw no_processes (inl refl)
  | inr given ↦ rw given (with_envs-Profiles rule (flameshot_envs s rule pod) pod s absent)
]

matching_rule-present :
    (rules : List (Option FlameshotRule)) (namespace : String) (pod : Pod)
    → contains_container flameshot_container_name pod ≡ true
    → matching_rule rules namespace pod ≡ none
unfolding matching_rule
matching_rule-present rules namespace pod h = rw h (if-cases (λ r. r ≡ none) _ none none refl refl)

module _ (s : Setting) (rules : List (Option FlameshotRule)) (namespace : String) where
  present-settled :
      (pod : Pod)
      → contains_container flameshot_container_name pod ≡ true
      → inject_flameshot s rules namespace pod ≡ some pod
  unfolding inject_flameshot
  present-settled pod h = rw (matching_rule-present rules (namespace_of namespace pod) pod h) refl

  -- The injection of flameshot, where it does not panic, leaves the pod as it was; or the pod
  -- shares its processes afterwards and has one more container, named datakit-flameshot, with
  -- one port that is a 32-bit number and not 0, behind its containers, which stay in their
  -- order and, but for their mounts, as they were.
  pub inject_flameshot-ProfilesResult :
      (pod : Pod) → ProfilesResult pod (inject_flameshot s rules namespace pod)
  unfolding inject_flameshot
  inject_flameshot-ProfilesResult pod =
      elim (Bool-cases (contains_container flameshot_container_name pod)) [
        | inl there ↦
            rw (matching_rule-present rules (namespace_of namespace pod) pod there) (inl refl)
        | inr absent ↦
            inject_matched-Profiles s pod (matching_rule rules (namespace_of namespace pod) pod)
              absent
      ]

KeepsResult-Profiles :
    (pod : Pod) (o : Option Pod) → ProfilesResult pod o → KeepsResult flameshot_container_name pod o
KeepsResult-Profiles pod none h = tt
KeepsResult-Profiles pod (some new) (inl same) = inl same
KeepsResult-Profiles pod (some new) (inr (p, z, name, ports, range, given, shares, bares)) =
    inr (p, name, bares)

-- A second injection changes nothing.
pub inject_flameshot-Settled :
    (s : Setting) (rules : List (Option FlameshotRule)) (namespace : String) (pod : Pod)
    → Settled (inject_flameshot s rules namespace) (inject_flameshot s rules namespace pod)
inject_flameshot-Settled s rules namespace pod =
    Settled-from flameshot_container_name (inject_flameshot s rules namespace)
      (present-settled s rules namespace) pod (inject_flameshot s rules namespace pod) refl
      (KeepsResult-Profiles pod (inject_flameshot s rules namespace pod)
        (inject_flameshot-ProfilesResult s rules namespace pod))
