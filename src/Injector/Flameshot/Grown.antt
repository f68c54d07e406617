-- ===== src/Injector/Flameshot/Grown.antt =====
-- The growth of a pod by the injection of flameshot.
use datakit_operator.Common.{
  Option, none, some, true, false, List, [], ◌∷◌, String, ◌==◌, refl, if-cases, Bool, ◌||◌, ◌≡◌,
  ◌∙◌, ap, sym, inl, inr, Bool-cases, eq_iff, lookup, insert, differ,
}
use mathlib.Core.Bool.{false≢true}
use mathlib.Core.Option.{none-ne-some}
use datakit_operator.Common.Text.{has_prefix}
use datakit_operator.Webhook.Patch.Apply.Annotations.{lookup-insert}
use datakit_operator.Common.Int.{ℤ}
use datakit_operator.Kubernetes.{EnvVar, Container, Volume, Pod, ResourceRequirements}
use datakit_operator.Manager.Named.{Extends-refl}
use datakit_operator.Config.Resource.{pull_policy}
use datakit_operator.Config.Rules.{FlameshotRule}
use datakit_operator.Injector.Setting.{Setting, namespace_of}
use datakit_operator.Injector.Grown.{Joined-refl, Grows, GrowsResult, Grows-refl, Grows-trans}
use datakit_operator.Injector.Grown.Steps.{
  add_container-Grows, add_volume-Grows, add_volume_mount-Grows,
}
use datakit_operator.Injector.Profiler.Grown.{reset_spec-Grows}
use datakit_operator.Injector.Flameshot.{
  flameshot_container_name, matching_rule, flameshot_envs, profiling_path, flameshot_port, is_zero,
  flameshot_container, inject_volume, inject_volume_mount, add_prometheus_annotations,
  has_prometheus_annotation, finish, with_envs, inject_matched, inject_flameshot,
}

or-false : (a b : Bool) → (a || b) ≡ false → (a ≡ false) × (b ≡ false)
or-false false b h = (refl, h)
or-false true b h = absurd (false≢true (sym h))

unannotated :
    (k v : String) (m : List (String × String))
    → has_prometheus_annotation m ≡ false
    → lookup k m ≡ some v
    → has_prefix k "prometheus.io/" ≡ false
unfolding has_prometheus_annotation
unannotated k v [] none_there found = absurd (none-ne-some v found)
unannotated k v ((j, w) ∷ m) none_there found =
    let (first, later) = or-false (has_prefix j "prometheus.io/") _ none_there in
    elim (Bool-cases (j == k)) [
      | inl here ↦ ap (λ s. has_prefix s "prometheus.io/") (sym ((eq_iff j k).0 here)) ∙ first
      | inr other ↦ unannotated k v m later (rw other at found)
    ]

inserted-keeps :
    (j w k v : String) (m : List (String × String))
    → has_prefix j "prometheus.io/" ≡ true
    → has_prefix k "prometheus.io/" ≡ false
    → lookup k m ≡ some v
    → lookup k (insert j w m) ≡ some v
inserted-keeps j w k v m given other found =
    lookup-insert k j w m ∙ rw (differ (λ s. has_prefix s "prometheus.io/") j k given other) found

annotated-Grows :
    (z : ℤ) (pod : Pod)
    → has_prometheus_annotation pod.annotations ≡ false
    → Grows [] pod (add_prometheus_annotations z pod)
unfolding add_prometheus_annotations has_prefix
annotated-Grows z pod absent = rw absent (record {
  containers = Joined-refl [] pod.spec.containers;
  inits = Extends-refl Container.name pod.spec.init_containers;
  volumes = Extends-refl Volume.name pod.spec.volumes;
  annotations = λ k v found.
      let other = unannotated k v pod.annotations absent found in
      inserted-keeps _ _ k v _ refl other (
        inserted-keeps _ _ k v _ refl other (
          inserted-keeps _ _ k v _ refl other (
            inserted-keeps _ _ k v _ refl other
              (inserted-keeps _ _ k v pod.annotations refl other found))));
  others = refl;
})

annotations-Grows : (z : ℤ) (pod : Pod) → Grows [] pod (add_prometheus_annotations z pod)
unfolding add_prometheus_annotations
annotations-Grows z pod = elim (Bool-cases (has_prometheus_annotation pod.annotations)) [
  | inl there ↦ rw there (Grows-refl [] pod)
  | inr absent ↦ annotated-Grows z pod absent
]

inject_volume-Grows : (pod : Pod) → Grows [] pod (inject_volume pod)
unfolding inject_volume
inject_volume-Grows pod = add_volume-Grows _ pod

inject_volume_mount-Grows :
    (path : String) (pod : Pod) → Grows [] pod (inject_volume_mount path pod)
unfolding inject_volume_mount
inject_volume_mount-Grows path pod = add_volume_mount-Grows _ pod

finish-Grows :
    (rule : FlameshotRule) (envs : List EnvVar) (path : String) (port : ℤ) (pod : Pod)
    (o : Option ResourceRequirements)
    → GrowsResult (flameshot_container_name ∷ []) pod (finish rule envs path port pod o)
unfolding flameshot_container
finish-Grows rule envs path port pod none = tt
finish-Grows rule envs path port pod (some resources) =
    let c : Container =
      flameshot_container rule.rule.image (pull_policy rule.rule.image_pull_policy) resources envs
        port in
    let grown = Grows-trans (reset_spec-Grows pod) (
      Grows-trans (add_container-Grows c _)
        (Grows-trans (inject_volume-Grows _) (inject_volume_mount-Grows path _))) in
    if-cases (Grows (flameshot_container_name ∷ []) pod) rule.enable_prometheus_annotations _ _
      (Grows-trans grown (annotations-Grows port _)) grown

with_envs-Grows :
    (s : Setting) (rule : FlameshotRule) (pod : Pod) (envs : List EnvVar)
    → GrowsResult (flameshot_container_name ∷ []) pod (with_envs s rule pod envs)
with_envs-Grows s rule pod envs =
    let R = GrowsResult (flameshot_container_name ∷ []) pod in
    if-cases R (profiling_path envs == "") (some pod) _ (Grows-refl _ pod) (
      if-cases R (is_zero (flameshot_port envs)) (some pod) _ (Grows-refl _ pod)
        (finish-Grows rule envs (profiling_path envs) (flameshot_port envs) pod _))

inject_matched-Grows :
    (s : Setting) (pod : Pod) (o : Option FlameshotRule)
    → GrowsResult (flameshot_container_name ∷ []) pod (inject_matched s pod o)
inject_matched-Grows s pod none = Grows-refl _ pod
inject_matched-Grows s pod (some rule) =
    if-cases (GrowsResult (flameshot_container_name ∷ []) pod) (rule.processes == "") (some pod) _
      (Grows-refl _ pod) (with_envs-Grows s rule pod (flameshot_envs s rule pod))

pub inject_flameshot-GrowsResult :
    (s : Setting) (rules : List (Option FlameshotRule)) (namespace : String) (pod : Pod)
    → GrowsResult (flameshot_container_name ∷ []) pod (inject_flameshot s rules namespace pod)
unfolding inject_flameshot
inject_flameshot-GrowsResult s rules namespace pod =
    inject_matched-Grows s pod (matching_rule rules (namespace_of namespace pod) pod)
