-- ===== src/Injector/DdTrace/Variables.antt =====
-- Which variables of a container the steps of apis/webhook/injector/ddtrace.go leave as they are.
use datakit_operator.Common.{
  some, true, false, ◌||◌, List, [], ◌∷◌, ◌++◌, String, ◌≡◌, refl, ◌∙◌, ◌==◌, inl, inr, Bool-cases,
  if-cases, is_some, eq_iff,
}
use datakit_operator.Kubernetes.{EnvVar, plain_env}
use datakit_operator.Manager.{add_or_update_env, add_or_update_envs, keep_existing}
use datakit_operator.Manager.Envs.{find_env, find_env-add_or_update_env, find_env-keep}
use datakit_operator.Injector.Utils.{append_kv_pairs}
use datakit_operator.Injector.DdTrace.{revalue, add_or_merge_dd_tags, put_env}

-- The variable of another name stays as it is.
pub find_env-revalue :
    (k key : String) (value : String → String) (es : List EnvVar)
    → (key == k) ≡ false
    → find_env k (add_or_update_env es (plain_env key (value "")) (some (revalue value)))
      ≡ find_env k es
find_env-revalue k key value es other =
    find_env-add_or_update_env (revalue value) k es (plain_env key (value "")) (λ a b h. h)
    ∙ rw other refl

find_env-kept :
    (k : String) (es : List EnvVar) (incoming e : EnvVar)
    → find_env k es ≡ some e
    → find_env k (add_or_update_env es incoming (some keep_existing)) ≡ some e
unfolding add_or_update_envs
find_env-kept k es incoming e h = find_env-keep k (incoming ∷ []) es e h

find_env-append :
    (k : String) (xs ys : List EnvVar) (e : EnvVar)
    → find_env k xs ≡ some e
    → find_env k (xs ++ ys) ≡ some e
unfolding find_env
find_env-append k [] ys e h = cc
find_env-append k (x ∷ xs) ys e h = elim (Bool-cases (x.name == k)) [
  | inl here ↦ rw here (rw here at h)
  | inr later ↦ rw later (find_env-append k xs ys e (rw later at h))
]

tags_other :
    (k : String) (e : EnvVar)
    → ("DD_TAGS" == k) ≡ false
    → (e.name == "DD_TAGS") ≡ true
    → (e.name == k) ≡ false
tags_other k e other h = rw ((eq_iff e.name "DD_TAGS").0 h) other

merged-keeps :
    (k : String) (es : List EnvVar) (incoming e : EnvVar)
    → ("DD_TAGS" == k) ≡ false
    → find_env k es ≡ some e
    → find_env k (add_or_merge_dd_tags es incoming) ≡ some e
unfolding add_or_merge_dd_tags find_env
merged-keeps k [] incoming e differs h = cc
merged-keeps k (x ∷ es) incoming e differs h = elim (Bool-cases (x.name == "DD_TAGS")) [
  | inl tags ↦ rw tags (
      if-cases (λ l. find_env k l ≡ some e) (is_some x.value_from) (x ∷ es)
        (es ++ record incoming { value = append_kv_pairs x.value incoming.value } ∷ []) h
        (find_env-append k es _ e (rw (tags_other k x differs tags) at h)))
  | inr other ↦ rw other (elim (Bool-cases (x.name == k)) [
    | inl here ↦ rw here (rw here at h)
    | inr later ↦ rw later (merged-keeps k es incoming e differs (rw later at h))
  ])
]

-- A variable that is not DD_TAGS stays as it is, whatever the rule brings.
pub find_env-put_env :
    (k : String) (incoming : EnvVar) (es : List EnvVar) (e : EnvVar)
    → ("DD_TAGS" == k) ≡ false
    → find_env k es ≡ some e
    → find_env k (put_env incoming es) ≡ some e
unfolding put_env
find_env-put_env k incoming es e differs found =
    if-cases (λ l. find_env k l ≡ some e) (incoming.name == "DD_TAGS") _ _
      (if-cases (λ l. find_env k l ≡ some e) (incoming.value == "" || is_some incoming.value_from)
        es (add_or_merge_dd_tags es incoming) found (merged-keeps k es incoming e differs found))
      (find_env-kept k es incoming e found)
