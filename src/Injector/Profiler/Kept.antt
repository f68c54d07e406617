-- ===== src/Injector/Profiler/Kept.antt =====
-- What the injection of the profiler leaves as it was.
use datakit_operator.Common.{
  Option, none, some, true, false, List, [], ◌∷◌, ◌++◌, String, ◌≡◌, refl, sym, ap, ◌∙◌, ◌==◌, inl,
  inr, is_some, Bool-cases, if-cases,
}
use mathlib.Core.Path.{subst}
use datakit_operator.Kubernetes.{EnvVar, Container, Pod, ResourceRequirements}
use datakit_operator.Manager.{add_container, contains_container, add_volume, find_volume_mount_path}
use datakit_operator.Config.Resource.{pull_policy}
use datakit_operator.Config.Rules.{ProfilerRule}
use datakit_operator.Injector.Setting.{Setting, namespace_of}
use datakit_operator.Injector.Added.{
  bare, bare_containers, add_volume_mount-bare, add_container-bare, KeepsResult, Keeps,
}
use datakit_operator.Injector.Profiler.{
  Matched, profiler_envs, profiler_container_name, matching_rule, image_from_rule, reset_spec,
  profiler_container, inject_volume, mount_unless_there, inject_volume_mount, finish,
  inject_matched, inject_profiler,
}

mount_unless_there-bare :
    (name path : String) (pod : Pod)
    → bare_containers (mount_unless_there name path pod) ≡ bare_containers pod
unfolding mount_unless_there
mount_unless_there-bare name path pod =
    elim (Bool-cases (is_some (find_volume_mount_path path pod))) [
      | inl there ↦ rw there refl
      | inr absent ↦ rw absent (add_volume_mount-bare _ pod)
    ]

inject_volume_mount-bare :
    (pod : Pod) → bare_containers (inject_volume_mount pod) ≡ bare_containers pod
unfolding inject_volume_mount
inject_volume_mount-bare pod =
    mount_unless_there-bare _ _ _ ∙ mount_unless_there-bare _ _ _ ∙ add_volume_mount-bare _ pod

inject_volume-bare : (pod : Pod) → bare_containers (inject_volume pod) ≡ bare_containers pod
unfolding inject_volume add_volume
inject_volume-bare pod = refl

reset_spec-contains :
    (pod : Pod)
    → contains_container profiler_container_name pod ≡ false
    → contains_container profiler_container_name (reset_spec pod) ≡ false
unfolding reset_spec contains_container
reset_spec-contains pod h = h

reset_spec-bare : (pod : Pod) → bare_containers (reset_spec pod) ≡ bare_containers pod
unfolding reset_spec
reset_spec-bare pod = refl

named_profiler :
    (image policy : String) (resources : ResourceRequirements) (envs : List EnvVar)
    → (profiler_container image policy resources envs).name ≡ profiler_container_name
unfolding profiler_container
named_profiler image policy resources envs = refl

placed-Keeps :
    (c : Container) (pod : Pod)
    → c.name ≡ profiler_container_name
    → contains_container profiler_container_name pod ≡ false
    → Keeps profiler_container_name pod
        (inject_volume_mount (inject_volume (add_container c (reset_spec pod))))
placed-Keeps c pod e h =
    let absent : contains_container c.name (reset_spec pod) ≡ false =
      subst (λ n. contains_container n (reset_spec pod) ≡ false) (sym e)
        (reset_spec-contains pod h) in
    inr (
      c,
      e,
      inject_volume_mount-bare (inject_volume (add_container c (reset_spec pod)))
          ∙ inject_volume-bare (add_container c (reset_spec pod))
          ∙ add_container-bare c (reset_spec pod) absent
          ∙ ap (λ cs. cs ++ bare c ∷ []) (reset_spec-bare pod),
    )

finish-Keeps :
    (s : Setting) (rule : ProfilerRule) (image : String) (pod : Pod)
    (o : Option ResourceRequirements)
    → contains_container profiler_container_name pod ≡ false
    → KeepsResult profiler_container_name pod (finish s rule image (reset_spec pod) o)
finish-Keeps s rule image pod none h = tt
finish-Keeps s rule image pod (some resources) h =
    placed-Keeps
      (profiler_container image (pull_policy rule.rule.image_pull_policy) resources
        (profiler_envs s rule (reset_spec pod)))
      pod
      (named_profiler image (pull_policy rule.rule.image_pull_policy) resources
        (profiler_envs s rule (reset_spec pod)))
      h

inject_matched-Keeps :
    (s : Setting) (pod : Pod) (m : Matched)
    → contains_container profiler_container_name pod ≡ false
    → KeepsResult profiler_container_name pod (inject_matched s pod m)
inject_matched-Keeps s pod none h = inl refl
inject_matched-Keeps s pod (some (rule, l, version)) h =
    elim (Bool-cases (image_from_rule rule l == "")) [
      | inl no_image ↦ rw no_image (inl refl)
      | inr image ↦ rw image (finish-Keeps s rule _ pod _ h)
    ]

pub matching_rule-present :
    (rules : List (Option ProfilerRule)) (namespace : String) (pod : Pod)
    → contains_container profiler_container_name pod ≡ true
    → matching_rule rules namespace pod ≡ none
unfolding matching_rule
matching_rule-present rules namespace pod h = rw h (if-cases (λ r. r ≡ none) _ none none refl refl)

-- The injection of the profiler, where it does not panic, changes nothing, or puts one container
-- named datakit-profiler behind the containers of the pod, which stay in their order and, but for
-- their mounts, as they were.
pub inject_profiler-KeepsResult :
    (s : Setting) (rules : List (Option ProfilerRule)) (namespace : String) (pod : Pod)
    → KeepsResult profiler_container_name pod (inject_profiler s rules namespace pod)
unfolding inject_profiler
inject_profiler-KeepsResult s rules namespace pod =
    elim (Bool-cases (contains_container profiler_container_name pod)) [
      | inl there ↦
          rw (matching_rule-present rules (namespace_of namespace pod) pod there) (inl refl)
      | inr absent ↦
          inject_matched-Keeps s pod (matching_rule rules (namespace_of namespace pod) pod) absent
    ]
