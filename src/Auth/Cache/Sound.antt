-- ===== src/Auth/Cache/Sound.antt =====
-- A property that every entry has, through the methods of the cache.
use gads_write_mcp.Base.{
  ℕ, ◌+◌, String, ◌≡◌, refl, sym, inl, inr, Bool, true, false, not, Option, none, some, List, [],
  ◌∷◌, leb, length, ◌<◌, ltb→lt, if◌then◌else◌, Bool-cases,
}
use mathlib.Core.Path.{subst}
use gads_write_mcp.Auth.Tiers.{Tier}
use gads_write_mcp.Auth.Cache.{
  max_cache_entries, Key, key_of, same_key, Entry, TierCache, find, store, keep, is_live, answer,
  get, make_room, put,
}
use gads_write_mcp.Auth.Cache.Laws.{same_key-eq}

abbrev pub AllEntries : (Key → Entry → Type 0) → List (Key × Entry) → Type 0
AllEntries P [] = Unit
AllEntries P ((k, e) ∷ es) = P k e × AllEntries P es

some_inj : {A : Type 0} {a b : A} → some a ≡ some b → a ≡ b
some_inj h = cc

pub get-ttl :
    (email : String) (id : Option String) (now : ℕ) (cache : TierCache)
    → (get email id now cache).1.ttl ≡ cache.ttl
unfolding get
get-ttl email id now cache = by_ttl (leb cache.ttl 0) (find (key_of email id) cache.entries)
  where
    answer-ttl : (o : Option Entry) → (answer (key_of email id) now cache o).1.ttl ≡ cache.ttl
    answer-ttl none = refl
    answer-ttl (some e) = elim (Bool-cases (is_live now e)) [
      | inl live ↦ rw live refl
      | inr dead ↦ rw dead refl
    ]

    by_ttl :
        (off : Bool) (o : Option Entry)
        → (if off then (none, cache) else answer (key_of email id) now cache o).1.ttl ≡ cache.ttl
    by_ttl true o = refl
    by_ttl false o = answer-ttl o

pub put-ttl :
    (email : String) (id : Option String) (tier : Tier) (now : ℕ) (cache : TierCache)
    → (put email id tier now cache).ttl ≡ cache.ttl
unfolding put
put-ttl email id tier now cache = elim (Bool-cases (leb cache.ttl 0)) [
  | inl off ↦ rw off refl
  | inr on ↦ rw on refl
]

module _ (P : Key → Entry → Type 0) where
  keep-AllEntries :
      (p : Key → Entry → Bool) (es : List (Key × Entry))
      → AllEntries P es
      → AllEntries P (keep p es)
  unfolding keep
  keep-AllEntries p [] w = tt
  keep-AllEntries p ((k, e) ∷ es) (h, w) = elim (Bool-cases (p k e)) [
    | inl kept ↦ rw kept (h, keep-AllEntries p es w)
    | inr gone ↦ rw gone (keep-AllEntries p es w)
  ]

  store-AllEntries :
      (k : Key) (e : Entry) (es : List (Key × Entry))
      → P k e
      → AllEntries P es
      → AllEntries P (store k e es)
  unfolding store
  store-AllEntries k e [] new w = (new, tt)
  store-AllEntries k e ((j, d) ∷ es) new (h, w) = elim (Bool-cases (same_key j k)) [
    | inl same ↦ rw same (subst (λ x. P x e) (sym (same_key-eq j k same)) new, w)
    | inr other ↦ rw other (h, store-AllEntries k e es new w)
  ]

  find-AllEntries :
      (k : Key) (es : List (Key × Entry)) (e : Entry) → AllEntries P es → find k es ≡ some e → P k e
  unfolding find
  find-AllEntries k [] e w h = cc
  find-AllEntries k ((j, d) ∷ es) e (p, w) h = elim (Bool-cases (same_key j k)) [
    | inl same ↦ here (same_key-eq j k same) (rw same at h)
    | inr other ↦ find-AllEntries k es e w (rw other at h)
  ]
    where
      here : j ≡ k → some d ≡ some e → P k e
      here a b = subst (λ x. P k x) (some_inj b) (subst (λ x. P x d) a p)

  make_room-AllEntries :
      (now : ℕ) (es : List (Key × Entry)) → AllEntries P es → AllEntries P (make_room now es)
  unfolding make_room
  make_room-AllEntries now es w =
      by_size (leb max_cache_entries (length es))
        (leb max_cache_entries (length (keep (λ k e. is_live now e) es)))
    where
      by_size :
          (full crowded : Bool)
          → AllEntries P
              (if full then (if crowded then [] else keep (λ k e. is_live now e) es) else es)
      by_size false crowded = w
      by_size true true = tt
      by_size true false = keep-AllEntries (λ k e. is_live now e) es w

  pub put-AllEntries :
      (email : String) (id : Option String) (tier : Tier) (now : ℕ) (cache : TierCache)
      → P (key_of email id) (record { tier = tier; expires_at = now + cache.ttl })
      → AllEntries P cache.entries
      → AllEntries P (put email id tier now cache).entries
  unfolding put
  put-AllEntries email id tier now cache new w = elim (Bool-cases (leb cache.ttl 0)) [
    | inl off ↦ rw off w
    | inr on ↦ rw on (
        store-AllEntries (key_of email id) (record { tier = tier; expires_at = now + cache.ttl })
          (make_room now cache.entries) new (make_room-AllEntries now cache.entries w))
  ]

  -- What a lookup answers is the tier of an entry with the property that has not expired, and what is
  -- left has the property.
  abbrev pub IsSoundAnswer : ℕ → Key → Option Tier × TierCache → Type 0
  IsSoundAnswer now k (none, cache) = AllEntries P cache.entries
  IsSoundAnswer now k (some t, cache) =
      ((e : Entry) × (e.tier ≡ t) × (now < e.expires_at) × P k e) × AllEntries P cache.entries

  pub get-IsSoundAnswer :
      (email : String) (id : Option String) (now : ℕ) (cache : TierCache)
      → AllEntries P cache.entries
      → IsSoundAnswer now (key_of email id) (get email id now cache)
  unfolding get
  get-IsSoundAnswer email id now cache w =
      by_ttl (leb cache.ttl 0) (find (key_of email id) cache.entries) refl
    where
      by_life :
          (live : Bool) (e : Entry)
          → is_live now e ≡ live
          → P (key_of email id) e
          → IsSoundAnswer now (key_of email id) (
              if live then (some e.tier, cache) else (
                none,
                record cache {
                  entries = keep (λ j d. not (same_key j (key_of email id))) cache.entries;
                },
              ))
      by_life true e h p = ((e, refl, ltb→lt now e.expires_at h, p), w)
      by_life false e h p =
          keep-AllEntries (λ j d. not (same_key j (key_of email id))) cache.entries w

      by_ttl :
          (off : Bool) (o : Option Entry)
          → find (key_of email id) cache.entries ≡ o
          → IsSoundAnswer now
              (key_of email id)
              (if off then (none, cache) else answer (key_of email id) now cache o)
      by_ttl true o f = w
      by_ttl false none f = w
      by_ttl false (some e) f =
          by_life (is_live now e) e refl (find-AllEntries (key_of email id) cache.entries e w f)
