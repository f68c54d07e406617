-- ===== src/Logging/Cache/Sync.antt =====
-- What the worker makes of the cache (processQueue of crd_watcher.go).
use datakit_operator.Common.{
  Option, none, some, Bool, true, false, ◌||◌, List, [], ◌∷◌, String, ◌≡◌, refl, sym, ap, ◌∙◌, ◌==◌,
  if◌then◌else◌, eq_iff, Bool-cases, inl, inr, any,
}
use mathlib.Core.Path.{subst}
use datakit_operator.Config.Selector.{Compilers}
use datakit_operator.Logging.Cache.{
  CachedConfig, Cache, LoggingSpec, StoreReply, store_error, missing, other_object, object,
  put_marshalled, cached_config, add_or_update_config, process_reply, process_item, process_queue,
}
use datakit_operator.Logging.Cache.Names.{
  find_cached, IsMap, find_cached-put, find_cached-remove_config, put-IsMap, remove_config-IsMap,
}

-- The entry that a name should have, by what the store says of it: an error, an object of another type or
-- a specification that cannot be marshalled leaves the entry as it was.
abbrev marshalled :
    Compilers → String → LoggingSpec → Option String → Option CachedConfig → Option CachedConfig
marshalled c k spec none old = old
marshalled c k spec (some json) old = some (cached_config c k spec json)

abbrev from_reply : Compilers → String → StoreReply → Option CachedConfig → Option CachedConfig
from_reply c k store_error old = old
from_reply c k missing old = none
from_reply c k other_object old = old
from_reply c k (object spec) old = marshalled c k spec spec.configs old

abbrev pub desired :
    Compilers → (String → StoreReply) → String → Option CachedConfig → Option CachedConfig
desired c store k old = from_reply c k (store k) old

abbrev Became : Compilers → (String → StoreReply) → String → Cache → Cache → Type 0
Became c store key before after =
    IsMap after
    × ((k : String)
        → find_cached k after
          ≡ (if key == k then desired c store k (find_cached k before) else find_cached k before))

Became-set :
    (c : Compilers) (store : String → StoreReply) (key : String) (before after : Cache)
    (v : Option CachedConfig)
    → desired c store key (find_cached key before) ≡ v
    → ((k : String) → find_cached k after ≡ (if key == k then v else find_cached k before))
    → IsMap after
    → Became c store key before after
Became-set c store key before after v h sets d = (
  d,
  λ k. elim (Bool-cases (key == k)) [
    | inl same ↦
        rw (sets k, same)
          (sym
            (subst (λ j. desired c store j (find_cached j before) ≡ v) ((eq_iff key k).0 same) h))
    | inr other ↦ rw (sets k, other) refl
  ],
)

own_entry :
    (key k : String) (cache : Cache)
    → find_cached k cache ≡ (if key == k then find_cached key cache else find_cached k cache)
own_entry key k cache = elim (Bool-cases (key == k)) [
  | inl same ↦ rw same (ap (λ j. find_cached j cache) (sym ((eq_iff key k).0 same)))
  | inr other ↦ rw other refl
]

Became-put :
    (c : Compilers) (store : String → StoreReply) (key : String) (cache : Cache)
    (spec : LoggingSpec) (json : Option String)
    → desired c store key (find_cached key cache)
      ≡ marshalled c key spec json (find_cached key cache)
    → IsMap cache
    → Became c store key cache (put_marshalled c key spec json cache)
unfolding cached_config
Became-put c store key cache spec none h d =
    Became-set c store key cache cache _ h (λ k. own_entry key k cache) d
Became-put c store key cache spec (some json) h d =
    Became-set c store key cache _ _ h
      (λ k. find_cached-put k (cached_config c key spec json) cache)
      (put-IsMap (cached_config c key spec json) cache d)

process_reply-Became :
    (c : Compilers) (store : String → StoreReply) (key : String) (cache : Cache)
    → IsMap cache
    → (r : StoreReply) → store key ≡ r
    → Became c store key cache (process_reply c key r cache)
unfolding process_reply add_or_update_config
process_reply-Became c store key cache d store_error e =
    Became-set c store key cache cache _ (ap (λ r. from_reply c key r (find_cached key cache)) e)
      (λ k. own_entry key k cache) d
process_reply-Became c store key cache d missing e =
    Became-set c store key cache _ none (ap (λ r. from_reply c key r (find_cached key cache)) e)
      (λ k. find_cached-remove_config k key cache d) (remove_config-IsMap key cache d)
process_reply-Became c store key cache d other_object e =
    Became-set c store key cache cache _ (ap (λ r. from_reply c key r (find_cached key cache)) e)
      (λ k. own_entry key k cache) d
process_reply-Became c store key cache d (object spec) e =
    Became-put c store key cache spec spec.configs
      (ap (λ r. from_reply c key r (find_cached key cache)) e) d

process_item-Became :
    (c : Compilers) (store : String → StoreReply) (key : String) (cache : Cache)
    → IsMap cache
    → Became c store key cache (process_item c store key cache)
unfolding process_item
process_item-Became c store key cache d = process_reply-Became c store key cache d (store key) refl

marshalled_again :
    (c : Compilers) (k : String) (spec : LoggingSpec) (json : Option String)
    (old : Option CachedConfig)
    → marshalled c k spec json (marshalled c k spec json old) ≡ marshalled c k spec json old
marshalled_again c k spec none old = refl
marshalled_again c k spec (some json) old = refl

from_reply_again :
    (c : Compilers) (k : String) (r : StoreReply) (old : Option CachedConfig)
    → from_reply c k r (from_reply c k r old) ≡ from_reply c k r old
from_reply_again c k store_error old = refl
from_reply_again c k missing old = refl
from_reply_again c k other_object old = refl
from_reply_again c k (object spec) old = marshalled_again c k spec spec.configs old

desired_later :
    {A : Type 0} (f : A → A) (now later : Bool) (old : A)
    → f (f old) ≡ f old
    → (if later then f (if now then f old else old) else (if now then f old else old))
      ≡ (if now || later then f old else old)
desired_later f true true old h = h
desired_later f true false old h = refl
desired_later f false true old h = refl
desired_later f false false old h = refl

-- If the cache has one entry for each name and the store does not change, then after the worker
-- has taken any sequence of keys, in any order and however often, the entry of every key that was
-- taken is what the store has for it (none for an object that is gone, the old entry for an
-- error), the other entries are as they were, and every name has one entry.
pub process_queue-desired :
    (c : Compilers) (store : String → StoreReply) (keys : List String) (cache : Cache)
    → IsMap cache
    → IsMap (process_queue c store keys cache)
      × ((k : String)
          → find_cached k (process_queue c store keys cache) ≡ (
              if any (λ j. j == k) keys
              then desired c store k (find_cached k cache)
              else find_cached k cache))
unfolding process_queue
process_queue-desired c store [] cache d = (d, λ k. refl)
process_queue-desired c store (key ∷ keys) cache d =
    let (d', now) = process_item-Became c store key cache d in
    let (d'', later) = process_queue-desired c store keys (process_item c store key cache) d' in
    (
      d'',
      λ k.
          later k
          ∙ ap (λ e. if any (λ j. j == k) keys then desired c store k e else e) (now k)
          ∙ desired_later (desired c store k) (key == k) (any (λ j. j == k) keys)
              (find_cached k cache) (from_reply_again c k (store k) (find_cached k cache)),
    )
