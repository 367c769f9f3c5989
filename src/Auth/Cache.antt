-- ===== src/Auth/Cache.antt =====
-- TierCache of auth/google_ads_roles.py. The lock makes each method one step; `now` is the clock
-- that the method reads, in nanoseconds, as is the lifetime.
pub mod Laws
pub mod Sound
pub mod History
use gads_write_mcp.Base.{
  ℕ, ◌+◌, String, Bool, true, false, not, ◌&&◌, Option, none, some, List, [], ◌∷◌, leb, ltb, length,
  str_eq, if◌then◌else◌,
}
use gads_write_mcp.Auth.Tiers.{Tier}

abbrev pub max_cache_entries : ℕ
max_cache_entries = 2000

-- The key `(email, customer_id or "")`.
pub record Key : Type 0 where
  pub email : String
  pub account : String

abbrev pub account_or_empty : Option String → String
account_or_empty none = ""
account_or_empty (some id) = id

abbrev pub key_of : String → Option String → Key
key_of email customer_id = record { email = email; account = account_or_empty customer_id }

abbrev pub same_key : Key → Key → Bool
same_key k j = str_eq k.email j.email && str_eq k.account j.account

pub record Entry : Type 0 where
  pub tier : Tier
  pub expires_at : ℕ

pub record TierCache : Type 0 where
  pub ttl : ℕ
  pub entries : List (Key × Entry)

abbrev pub empty_cache : ℕ → TierCache
empty_cache ttl = record { ttl = ttl; entries = [] }

unfoldable pub find : Key → List (Key × Entry) → Option Entry
find k [] = none
find k ((j, e) ∷ es) = let rest = find k es in if same_key j k then some e else rest

unfoldable pub store : Key → Entry → List (Key × Entry) → List (Key × Entry)
store k e [] = (k, e) ∷ []
store k e ((j, d) ∷ es) =
    let rest = store k e es in if same_key j k then (j, e) ∷ es else (j, d) ∷ rest

-- The entries that pass a test.
unfoldable pub keep : (Key → Entry → Bool) → List (Key × Entry) → List (Key × Entry)
keep p [] = []
keep p ((k, e) ∷ es) = let rest = keep p es in if p k e then (k, e) ∷ rest else rest

abbrev pub is_live : ℕ → Entry → Bool
is_live now e = ltb now e.expires_at

abbrev answer : Key → ℕ → TierCache → Option Entry → Option Tier × TierCache
unfolding keep
answer k now cache none = (none, cache)
answer k now cache (some e) =
    if is_live now e
    then (some e.tier, cache)
    else (none, record cache { entries = keep (λ j d. not (same_key j k)) cache.entries })

unfoldable pub get : String → Option String → ℕ → TierCache → Option Tier × TierCache
unfolding find answer
get email customer_id now cache =
    if leb cache.ttl 0
    then (none, cache)
    else answer (key_of email customer_id) now cache (find (key_of email customer_id) cache.entries)

-- Room for one more: a full cache drops what has expired, and if that is not enough, everything.
unfoldable pub make_room : ℕ → List (Key × Entry) → List (Key × Entry)
unfolding keep
make_room now entries =
    let live = keep (λ k e. is_live now e) entries in
    if leb max_cache_entries (length entries)
    then (if leb max_cache_entries (length live) then [] else live)
    else entries

unfoldable pub put : String → Option String → Tier → ℕ → TierCache → TierCache
unfolding store make_room
put email customer_id tier now cache = if leb cache.ttl 0 then cache else record cache {
  entries =
      store (key_of email customer_id) (record { tier = tier; expires_at = now + cache.ttl })
        (make_room now cache.entries);
}

unfoldable pub invalidate : Option String → TierCache → TierCache
unfolding keep
invalidate none cache = record cache { entries = [] }
invalidate (some email) cache = record cache {
  entries = keep (λ k e. not (str_eq k.email email)) cache.entries;
}
