-- ===== src/Manager/Envs.antt =====
-- Environment variables, added or updated in place (pkg/manager/envvar.go).
use datakit_operator.Common.{
  ◌≡◌, refl, sym, ap, ◌∙◌, Option, none, some, Bool, true, false, List, [], ◌∷◌, map, String, ◌==◌,
  if◌then◌else◌, arith, eq_iff, Bool-cases, inl, inr,
}
use datakit_operator.Kubernetes.{EnvVar}
use datakit_operator.Manager.{
  contains_name, add_named, Resolver, keep_existing, replace_existing, add_or_update_env,
  add_or_update_envs,
}
use datakit_operator.Manager.Named.{HasDistinctNames, add_named-HasDistinctNames}

if-same : (b : Bool) (x : Option EnvVar) → (if b then x else x) ≡ x
if-same true x = refl
if-same false x = refl

-- The first variable of a name, which is the one that the loops meet.
unfoldable pub find_env : String → List EnvVar → Option EnvVar
find_env k [] = none
find_env k (e ∷ es) = if e.name == k then some e else find_env k es

-- The last one.
pub last_env : String → List EnvVar → Option EnvVar → Option EnvVar
last_env k [] found = found
last_env k (e ∷ es) found = last_env k es (if e.name == k then some e else found)

-- What becomes of a variable that is there or not.
abbrev pub settled : Resolver → Option EnvVar → EnvVar → EnvVar
settled r none incoming = incoming
settled r (some e) incoming = r e incoming

-- The resolver answers with a variable of the name that both had.
abbrev pub KeepsName : Resolver → Type 0
KeepsName r = (e incoming : EnvVar) → e.name ≡ incoming.name → (r e incoming).name ≡ incoming.name

-- After the update the name has the resolved variable, and every other name has what it had.
pub find_env-add_or_update_env :
    (r : Resolver) (k : String) (es : List EnvVar) (incoming : EnvVar)
    → KeepsName r
    → find_env k (add_or_update_env es incoming (some r))
      ≡ (if incoming.name == k then some (settled r (find_env k es) incoming) else find_env k es)
unfolding find_env add_or_update_env
find_env-add_or_update_env r k [] incoming keeps = refl
find_env-add_or_update_env r k (e ∷ es) incoming keeps =
    elim (Bool-cases (e.name == incoming.name)) [
      | inl same ↦ ground (
        arith,
        keeps e incoming ((eq_iff e.name incoming.name).0 same),
        eq_iff e.name incoming.name,
        eq_iff (r e incoming).name k,
        eq_iff e.name k,
        eq_iff incoming.name k,
      )
      | inr other ↦ ground (
        arith,
        find_env-add_or_update_env r k es incoming keeps,
        eq_iff e.name incoming.name,
        eq_iff e.name k,
        eq_iff incoming.name k,
      )
    ]

add_named-cons :
    (x y : String) (ys : List String)
    → (y == x) ≡ false
    → add_named (λ n. n) x (y ∷ ys) ≡ y ∷ add_named (λ n. n) x ys
unfolding add_named
add_named-cons x y ys h = elim (Bool-cases (contains_name (λ n. n) x ys)) [
  | inl old ↦ rw (h, old) refl
  | inr new ↦ rw (h, new) refl
]

names_other :
    (r : Resolver) (e : EnvVar) (es : List EnvVar) (incoming : EnvVar)
    → (e.name == incoming.name) ≡ false
    → map EnvVar.name (add_or_update_env (e ∷ es) incoming (some r))
      ≡ e.name ∷ map EnvVar.name (add_or_update_env es incoming (some r))
unfolding add_or_update_env
names_other r e es incoming other = rw other refl

-- A name that is there keeps its place and a new one comes last: the names change as under the
-- addition of one name.
pub names-add_or_update_env :
    (r : Resolver) (es : List EnvVar) (incoming : EnvVar)
    → KeepsName r
    → map EnvVar.name (add_or_update_env es incoming (some r))
      ≡ add_named (λ n. n) incoming.name (map EnvVar.name es)
unfolding add_or_update_env add_named
names-add_or_update_env r [] incoming keeps = refl
names-add_or_update_env r (e ∷ es) incoming keeps = elim (Bool-cases (e.name == incoming.name)) [
  | inl same ↦
      let e' = (eq_iff e.name incoming.name).0 same in
      rw same (ap (λ n. n ∷ map EnvVar.name es) (keeps e incoming e' ∙ sym e'))
  | inr other ↦
      names_other r e es incoming other
      ∙ ap (λ l. e.name ∷ l) (names-add_or_update_env r es incoming keeps)
      ∙ sym (add_named-cons incoming.name e.name (map EnvVar.name es) other)
]

-- If the resolver answers with a variable of the name that both had, variables with distinct
-- names still have distinct names after any additions and updates.
pub add_or_update_envs-HasDistinctNames :
    (r : Resolver) (incoming es : List EnvVar)
    → KeepsName r
    → HasDistinctNames (λ n. n) (map EnvVar.name es)
    → HasDistinctNames (λ n. n) (map EnvVar.name (add_or_update_envs es incoming (some r)))
unfolding add_or_update_envs
add_or_update_envs-HasDistinctNames r [] es keeps d = d
add_or_update_envs-HasDistinctNames r (e ∷ incoming) es keeps d =
    add_or_update_envs-HasDistinctNames r incoming (add_or_update_env es e (some r)) keeps (
      rw (names-add_or_update_env r es e keeps)
        (add_named-HasDistinctNames (λ n. n) e.name (map EnvVar.name es) d))

replace-KeepsName : KeepsName replace_existing
replace-KeepsName e incoming h = refl

settled-replace : (o : Option EnvVar) (e : EnvVar) → settled replace_existing o e ≡ e
settled-replace none e = refl
settled-replace (some x) e = refl

-- After adding or updating with ReplaceExistingEnvVar, a name has the last incoming variable of
-- that name, and the first variable it had before if none came in.
pub find_env-add_or_update_envs :
    (k : String) (incoming es : List EnvVar)
    → find_env k (add_or_update_envs es incoming (some replace_existing))
      ≡ last_env k incoming (find_env k es)
unfolding last_env add_or_update_envs
find_env-add_or_update_envs k [] es = refl
find_env-add_or_update_envs k (e ∷ incoming) es =
    find_env-add_or_update_envs k incoming (add_or_update_env es e (some replace_existing))
    ∙ ap (last_env k incoming) (
        find_env-add_or_update_env replace_existing k es e replace-KeepsName
        ∙ ap (λ v. if e.name == k then some v else find_env k es)
            (settled-replace (find_env k es) e))

-- With KeepExistingEnvVar a name that had a variable keeps it, whatever comes in.
pub find_env-keep :
    (k : String) (incoming es : List EnvVar) (e : EnvVar)
    → find_env k es ≡ some e
    → find_env k (add_or_update_envs es incoming (some keep_existing)) ≡ some e
unfolding add_or_update_envs
find_env-keep k [] es e h = h
find_env-keep k (i ∷ incoming) es e h =
    find_env-keep k incoming (add_or_update_env es i (some keep_existing)) e (
      rw (find_env-add_or_update_env keep_existing k es i (λ a b same. same), h)
        (if-same (i.name == k) (some e)))
