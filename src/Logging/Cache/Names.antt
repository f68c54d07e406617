-- ===== src/Logging/Cache/Names.antt =====
-- The cache as a map: one entry for each name.
use datakit_operator.Common.{
  Option, none, some, false, [], ◌∷◌, String, ◌≡◌, refl, ◌==◌, if◌then◌else◌, eq_iff, arith,
  Bool-cases, inl, inr,
}
use datakit_operator.Manager.{contains_name}
use datakit_operator.Manager.Named.{HasDistinctNames}
use datakit_operator.Logging.Cache.{CachedConfig, Cache, put, remove_config}

unfoldable pub find_cached : String → Cache → Option CachedConfig
find_cached k [] = none
find_cached k (e ∷ es) = if e.name == k then some e else find_cached k es

abbrev pub IsMap : Cache → Type 0
IsMap cache = HasDistinctNames CachedConfig.name cache

pub find_cached-put :
    (k : String) (new : CachedConfig) (es : Cache)
    → find_cached k (put new es) ≡ (if new.name == k then some new else find_cached k es)
unfolding find_cached put
find_cached-put k new [] = refl
find_cached-put k new (e ∷ es) = elim (Bool-cases (e.name == new.name)) [
  | inl same ↦ ground (arith, eq_iff e.name new.name, eq_iff e.name k, eq_iff new.name k)
  | inr other ↦
      ground (
        arith,
        find_cached-put k new es,
        eq_iff e.name new.name,
        eq_iff e.name k,
        eq_iff new.name k,
      )
]

absent :
    (k : String) (es : Cache)
    → contains_name CachedConfig.name k es ≡ false
    → find_cached k es ≡ none
unfolding find_cached contains_name
absent k [] h = refl
absent k (e ∷ es) h = ground (arith, absent k es)

pub find_cached-remove_config :
    (k name : String) (es : Cache)
    → IsMap es
    → find_cached k (remove_config name es) ≡ (if name == k then none else find_cached k es)
unfolding find_cached remove_config
find_cached-remove_config k name [] d = ground arith
find_cached-remove_config k name (e ∷ es) (fresh, d) = elim (Bool-cases (e.name == name)) [
  | inl same ↦
      ground (arith, eq_iff e.name name, eq_iff e.name k, eq_iff name k, absent e.name es fresh)
  | inr other ↦ ground (
    arith,
    find_cached-remove_config k name es d,
    eq_iff e.name name,
    eq_iff e.name k,
    eq_iff name k,
  )
]

contains_name-put :
    (k : String) (new : CachedConfig) (es : Cache)
    → (new.name == k) ≡ false
    → contains_name CachedConfig.name k es ≡ false
    → contains_name CachedConfig.name k (put new es) ≡ false
unfolding contains_name put
contains_name-put k new [] n h = ground arith
contains_name-put k new (e ∷ es) n h = ground (arith, contains_name-put k new es)

pub put-IsMap : (new : CachedConfig) (es : Cache) → IsMap es → IsMap (put new es)
unfolding put contains_name
put-IsMap new [] d = (refl, tt)
put-IsMap new (e ∷ es) (fresh, d) = elim (Bool-cases (e.name == new.name)) [
  | inl same ↦ rw same (ground (arith, eq_iff e.name new.name), d)
  | inr other ↦ rw other (
    contains_name-put e.name new es (ground (arith, eq_iff e.name new.name, eq_iff new.name e.name))
        fresh,
    put-IsMap new es d,
  )
]

contains_name-remove_config :
    (k name : String) (es : Cache)
    → contains_name CachedConfig.name k es ≡ false
    → contains_name CachedConfig.name k (remove_config name es) ≡ false
unfolding contains_name remove_config
contains_name-remove_config k name [] h = refl
contains_name-remove_config k name (e ∷ es) h =
    ground (arith, contains_name-remove_config k name es)

pub remove_config-IsMap : (name : String) (es : Cache) → IsMap es → IsMap (remove_config name es)
unfolding remove_config
remove_config-IsMap name [] d = tt
remove_config-IsMap name (e ∷ es) (fresh, d) = elim (Bool-cases (e.name == name)) [
  | inl same ↦ rw same d
  | inr other ↦
      rw other (contains_name-remove_config e.name name es fresh, remove_config-IsMap name es d)
]
