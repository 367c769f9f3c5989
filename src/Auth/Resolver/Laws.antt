-- ===== src/Auth/Resolver/Laws.antt =====
-- What the tier that the gate looks up rests on: an answer of Google on that account, now or not
-- longer ago than an entry of the cache lives.
use gads_write_mcp.Base.{
  ℕ, ◌+◌, ◌≤◌, ◌<◌, String, ◌≡◌, refl, ◌≢◌, ◌⊎◌, inl, inr, Option, none, some, Result, ok, err,
  Bool-cases,
}
use gads_write_mcp.Auth.Cache.{Key, Entry, TierCache, get}
use gads_write_mcp.Auth.Cache.Sound.{AllEntries}
use gads_write_mcp.Auth.Identity.{Caller}
use gads_write_mcp.Auth.Tiers.{Tier, nothing}
use gads_write_mcp.Auth.Resolver.{
  RoleReadError, RoleSource, resolve_uncached, filed, or_asked, resolve,
}
use gads_write_mcp.Python.Text.{Runtime, normalised, is_empty_text}

-- Google as it answers at each moment of the clock.
module _ ⦃py : Runtime⦄ (google : ℕ → RoleSource) where
  -- At that moment Google says, through the managed account `id` or its manager, that the user holds
  -- the tier there.
  abbrev pub IsHeldAt : ℕ → String → String → Tier → Type 0
  IsHeldAt at email id t = resolve_uncached (google at) email id ≡ ok t

  -- An entry for an account was held there at some moment, and expires within a lifetime of it.
  abbrev pub IsStamped : ℕ → Key → Entry → Type 0
  IsStamped ttl k e =
      k.account ≢ "" → (at : ℕ) × IsHeldAt at k.email k.account e.tier × (e.expires_at ≤ at + ttl)

  abbrev pub IsStampedCache : ℕ → TierCache → Type 0
  IsStampedCache ttl cache = (cache.ttl ≡ ttl) × AllEntries (IsStamped ttl) cache.entries

  module _ (r : RoleSource) where
    -- Held at a moment: that of the answer in this lookup, or one whose lifetime is not over.
    abbrev pub IsFresh : ℕ → String → String → Tier → Type 0
    IsFresh ttl email id t =
        (at : ℕ) × IsHeldAt at email id t
        × ((at ≡ r.answered (some id)) ⊎ (r.asked (some id) < at + ttl))

    -- What a lookup answers, a failure to read the roles included, and the cache it leaves.
    abbrev pub IsLookup : ℕ → String → String → Result RoleReadError Tier × TierCache → Type 0
    IsLookup ttl email id (ok t, cache) =
        (((email ≡ "") × (t ≡ nothing)) ⊎ IsFresh ttl email id t) × IsStampedCache ttl cache
    IsLookup ttl email id (err e, cache) =
        (resolve_uncached r email id ≡ err e) × IsStampedCache ttl cache

module _ ⦃py : Runtime⦄ (r : RoleSource) where
  filed-outage :
      (email id : String) (cache : TierCache) (a : Result RoleReadError Tier) (e : RoleReadError)
      → (filed r email id cache a).0 ≡ err e
      → (a ≡ err e) × ((filed r email id cache a).1 ≡ cache)
  unfolding filed
  filed-outage email id cache (ok t) e h = cc
  filed-outage email id cache (err _) e h = (h, refl)

  or_asked-outage :
      (email id : String) (asked : Option Tier × TierCache) (e : RoleReadError)
      → (or_asked r email id asked).0 ≡ err e
      → (resolve_uncached r email id ≡ err e) × ((or_asked r email id asked).1 ≡ asked.1)
  unfolding or_asked
  or_asked-outage email id (some t, cache) e h = cc
  or_asked-outage email id (none, cache) e h =
      filed-outage email id cache (resolve_uncached r email id) e h

  -- A lookup for an account that fails has failed to read the roles, and files nothing: the cache is
  -- what asking it has left.
  pub resolve-outage :
      (caller : Caller) (id : String) (cache : TierCache) (e : RoleReadError)
      → (resolve r caller id cache).0 ≡ err e
      → (resolve_uncached r (normalised caller.email) id ≡ err e)
        × ((resolve r caller id cache).1
            ≡ (get (normalised caller.email) (some id) (r.asked (some id)) cache).1)
  unfolding resolve
  resolve-outage caller id cache e h = elim (Bool-cases (is_empty_text (normalised caller.email))) [
    | inl anonymous ↦ cc (rw anonymous at h)
    | inr known ↦ rw known (
        or_asked-outage (normalised caller.email) id
          (get (normalised caller.email) (some id) (r.asked (some id)) cache) e (rw known at h))
  ]
