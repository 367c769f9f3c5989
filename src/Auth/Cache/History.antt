-- ===== src/Auth/Cache/History.antt =====
-- The cache against what it stands for: the last tier that was written for a key and not withdrawn.
use gads_write_mcp.Base.{
  ℕ, ◌+◌, ◌<◌, String, ◌≡◌, refl, Bool, true, false, not, Option, none, some, List, [], ◌∷◌, arith,
  leb, ltb→lt, ◌≢◌, length, str_eq, if◌then◌else◌,
}
use gads_write_mcp.Auth.Tiers.{Tier}
use gads_write_mcp.Auth.Cache.{
  max_cache_entries, Key, key_of, same_key, Entry, TierCache, empty_cache, find, keep, is_live,
  answer, get, make_room, put, invalidate,
}
use gads_write_mcp.Auth.Cache.Laws.{
  HasDistinctKeys, find-store, find-keep, keep-HasDistinctKeys, store-HasDistinctKeys,
}

-- One call of a method.
pub data CacheEvent : Type 0 where
  reading : String → Option String → ℕ → CacheEvent
  writing : String → Option String → Tier → ℕ → CacheEvent
  dropping : Option String → CacheEvent

abbrev pub apply_event : CacheEvent → TierCache → TierCache
unfolding get put invalidate
apply_event (reading email id now) cache = (get email id now cache).1
apply_event (writing email id tier now) cache = put email id tier now cache
apply_event (dropping email) cache = invalidate email cache

-- The cache after a history, its latest event first.
unfoldable pub after : ℕ → List CacheEvent → TierCache
unfolding apply_event
after ttl [] = empty_cache ttl
after ttl (e ∷ es) = apply_event e (after ttl es)

abbrev withdraws : Option String → Key → Bool
withdraws none k = true
withdraws (some email) k = str_eq k.email email

-- The specification: what was last written for a key, and when, unless it has been withdrawn.
unfoldable pub last_written : Key → List CacheEvent → Option (Tier × ℕ)
last_written k [] = none
last_written k (reading email id now ∷ es) = last_written k es
last_written k (writing email id tier now ∷ es) =
    let rest = last_written k es in if same_key (key_of email id) k then some (tier, now) else rest
last_written k (dropping email ∷ es) =
    let rest = last_written k es in if withdraws email k then none else rest

record IsFaithful (ttl : ℕ) (es : List CacheEvent) (cache : TierCache) : Type 0 where
  same_ttl : cache.ttl ≡ ttl
  distinct : HasDistinctKeys cache.entries
  backed :
      (k : Key) (e : Entry)
      → find k cache.entries ≡ some e
      → (p : ℕ) × (last_written k es ≡ some (e.tier, p)) × (e.expires_at ≡ p + ttl)

make_room-find :
    (now : ℕ) (entries : List (Key × Entry)) (k : Key) (e : Entry)
    → HasDistinctKeys entries
    → find k (make_room now entries) ≡ some e
    → find k entries ≡ some e
unfolding make_room find
make_room-find now entries k e w h =
    by_size (leb max_cache_entries (length entries))
      (leb max_cache_entries (length (keep (λ k e. is_live now e) entries))) h
  where
    by_size :
        (full crowded : Bool)
        → find k (
            if full then (if crowded then [] else keep (λ k e. is_live now e) entries) else entries)
          ≡ some e
        → find k entries ≡ some e
    by_size false crowded h = h
    by_size true true h = cc
    by_size true false h = (find-keep (λ k e. is_live now e) k entries e w h).0

make_room-HasDistinctKeys :
    (now : ℕ) (entries : List (Key × Entry))
    → HasDistinctKeys entries
    → HasDistinctKeys (make_room now entries)
unfolding make_room
make_room-HasDistinctKeys now entries w =
    by_size (leb max_cache_entries (length entries))
      (leb max_cache_entries (length (keep (λ k e. is_live now e) entries)))
  where
    by_size :
        (full crowded : Bool)
        → HasDistinctKeys (
            if full then (if crowded then [] else keep (λ k e. is_live now e) entries) else entries)
    by_size false crowded = w
    by_size true true = tt
    by_size true false = keep-HasDistinctKeys (λ k e. is_live now e) entries w

module _ (ttl : ℕ) (es : List CacheEvent) (cache : TierCache) (f : IsFaithful ttl es cache)
    (lasting : leb cache.ttl 0 ≡ false) where
  -- Removing entries keeps a cache faithful, if what is withdrawn is removed.
  kept-IsFaithful :
      (p : Key → Entry → Bool) (es' : List CacheEvent)
      → ((k : Key) (e : Entry) → p k e ≡ true → last_written k es' ≡ last_written k es)
      → IsFaithful ttl es' (record cache { entries = keep p cache.entries })
  kept-IsFaithful p es' same = record {
    same_ttl = f.same_ttl;
    distinct = keep-HasDistinctKeys p cache.entries f.distinct;
    backed = λ k e h.
        let (found, passed) = find-keep p k cache.entries e f.distinct h in
        let (t, written, due) = f.backed k e found in (t, rw (same k e passed) written, due);
  }

  reading-IsFaithful :
      (email : String) (id : Option String) (now : ℕ)
      → IsFaithful ttl (reading email id now ∷ es) (get email id now cache).1
  unfolding get last_written
  reading-IsFaithful email id now = by_ttl (leb cache.ttl 0)
    where
      unchanged : IsFaithful ttl (reading email id now ∷ es) cache
      unchanged = record { same_ttl = f.same_ttl; distinct = f.distinct; backed = f.backed }

      by_answer :
          (o : Option Entry)
          → IsFaithful ttl (reading email id now ∷ es) (answer (key_of email id) now cache o).1
      by_answer none = unchanged
      by_answer (some e) = by_life (is_live now e)
        where
          by_life :
              (live : Bool)
              → IsFaithful ttl
                  (reading email id now ∷ es)
                  (if◌then◌else◌ {A = Option Tier × TierCache} live
                    (some e.tier, cache)
                    (
                      none,
                      record cache {
                        entries = keep (λ j d. not (same_key j (key_of email id))) cache.entries;
                      },
                    )).1
          by_life true = unchanged
          by_life false =
              kept-IsFaithful (λ j d. not (same_key j (key_of email id)))
                (reading email id now ∷ es) (λ k e h. refl)

      by_ttl :
          (off : Bool)
          → IsFaithful ttl
              (reading email id now ∷ es)
              (if◌then◌else◌ {A = Option Tier × TierCache} off
                (none, cache)
                (answer (key_of email id) now cache (find (key_of email id) cache.entries))).1
      by_ttl true = unchanged
      by_ttl false = by_answer (find (key_of email id) cache.entries)

  dropping-IsFaithful :
      (email : Option String) → IsFaithful ttl (dropping email ∷ es) (invalidate email cache)
  unfolding invalidate last_written find
  dropping-IsFaithful none = record { same_ttl = f.same_ttl; distinct = tt; backed = λ k e h. cc }
  dropping-IsFaithful (some email) =
      kept-IsFaithful (λ k e. not (str_eq k.email email)) (dropping (some email) ∷ es)
        (λ k e h. ground arith)

  writing-IsFaithful :
      (email : String) (id : Option String) (tier : Tier) (now : ℕ)
      → IsFaithful ttl (writing email id tier now ∷ es) (put email id tier now cache)
  unfolding put last_written
  writing-IsFaithful email id tier now = rw lasting (record {
    same_ttl = f.same_ttl;
    distinct =
        store-HasDistinctKeys key new room (make_room-HasDistinctKeys now cache.entries f.distinct);
    backed = λ k e h. by_key k e (same_key key k) refl (rw (find-store key k new room) at h);
  })
    where
      key : Key
      key = key_of email id

      new : Entry
      new = record { tier = tier; expires_at = now + cache.ttl }

      room : List (Key × Entry)
      room = make_room now cache.entries

      by_key :
          (k : Key) (e : Entry) (same : Bool)
          → same_key key k ≡ same
          → (if same then some new else find k room) ≡ some e
          → (p : ℕ) × ((if same_key key k then some (tier, now) else last_written k es)
              ≡ some (e.tier, p))
            × (e.expires_at ≡ p + ttl)
      by_key k e true s h = (now, rw s (cc), due)
        where
          due : e.expires_at ≡ now + ttl
          due = ground (arith, f.same_ttl)
      by_key k e false s h =
          let (t, written, due) =
            f.backed k e (make_room-find now cache.entries k e f.distinct h) in
          (t, rw s written, due)

find-nil : (k : Key) (e : Entry) → find k [] ≢ some e
unfolding find
find-nil k e h = cc

step-IsFaithful :
    (ttl : ℕ) (es : List CacheEvent) (e : CacheEvent) (cache : TierCache)
    → 0 < ttl
    → IsFaithful ttl es cache
    → IsFaithful ttl (e ∷ es) (apply_event e cache)
unfolding apply_event
step-IsFaithful ttl es e cache h f = by_event e
  where
    lasting : leb cache.ttl 0 ≡ false
    lasting = ground (arith, f.same_ttl, h)

    by_event : (e : CacheEvent) → IsFaithful ttl (e ∷ es) (apply_event e cache)
    by_event (reading email id now) = reading-IsFaithful ttl es cache f lasting email id now
    by_event (writing email id tier now) =
        writing-IsFaithful ttl es cache f lasting email id tier now
    by_event (dropping email) = dropping-IsFaithful ttl es cache f lasting email

-- A cache that keeps anything is faithful to its history.
after-IsFaithful : (ttl : ℕ) (es : List CacheEvent) → 0 < ttl → IsFaithful ttl es (after ttl es)
unfolding after
after-IsFaithful ttl [] h = record {
  same_ttl = refl;
  distinct = tt;
  backed = λ k e g. absurd (find-nil k e g);
}
after-IsFaithful ttl (e ∷ es) h =
    step-IsFaithful ttl es e (after ttl es) h (after-IsFaithful ttl es h)

get-found :
    (email : String) (id : Option String) (now : ℕ) (cache : TierCache) (tier : Tier)
    → (get email id now cache).0 ≡ some tier
    → (e : Entry) × (find (key_of email id) cache.entries ≡ some e)
      × (e.tier ≡ tier)
      × (now < e.expires_at)
unfolding get
get-found email id now cache tier h =
    by_ttl (leb cache.ttl 0) (find (key_of email id) cache.entries) refl h
  where
    by_life :
        (live : Bool) (e : Entry) (rest : TierCache)
        → (if◌then◌else◌ {A = Option Tier × TierCache} live (some e.tier, cache) (none, rest)).0
          ≡ some tier
        → (live ≡ true) × (e.tier ≡ tier)
    by_life true e rest h = (refl, cc)
    by_life false e rest h = cc

    by_ttl :
        (off : Bool) (o : Option Entry)
        → find (key_of email id) cache.entries ≡ o
        → (if◌then◌else◌ {A = Option Tier × TierCache} off
            (none, cache)
            (answer (key_of email id) now cache o)).0
          ≡ some tier
        → (e : Entry) × (find (key_of email id) cache.entries ≡ some e)
          × (e.tier ≡ tier)
          × (now < e.expires_at)
    by_ttl true o f h = cc
    by_ttl false none f h = cc
    by_ttl false (some e) f h =
        let (live, same) =
          by_life (is_live now e) e
            (record cache {
              entries = keep (λ j d. not (same_key j (key_of email id))) cache.entries;
            })
            h in
        (e, f, same, ltb→lt now e.expires_at live)

-- What a cache with a lifetime answers is what was last written for that caller and account, not
-- withdrawn since, and less than that lifetime ago.
pub get-last_written :
    (ttl : ℕ) (es : List CacheEvent) (email : String) (id : Option String) (now : ℕ) (tier : Tier)
    → 0 < ttl
    → (get email id now (after ttl es)).0 ≡ some tier
    → (p : ℕ) × (last_written (key_of email id) es ≡ some (tier, p)) × (now < p + ttl)
get-last_written ttl es email id now tier h found =
    let (e, there, same, live) = get-found email id now (after ttl es) tier found in
    let (p, written, due) = (after-IsFaithful ttl es h).backed (key_of email id) e there in
    (p, rw⁻¹ same written, ground (arith, due, live))
