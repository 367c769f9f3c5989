-- ===== src/Auth/Resolver.antt =====
-- auth/google_ads_roles.py: the resolvers of tiers. What Google, the managed set and the clock say
-- during a call is a record; the cache is the state.
pub mod Laws
use gads_write_mcp.Base.{
  ℕ, String, Bool, true, false, not, ◌&&◌, Option, none, some, List, [], ◌∷◌, str_eq, is_empty,
  if◌then◌else◌, Result, ok, err, ◌>>=◌,
}
use gads_write_mcp.Auth.Cache.{TierCache, get, put}
use gads_write_mcp.Auth.Identity.{Caller}
use gads_write_mcp.Auth.Roles.{RoleTable, override_for}
use gads_write_mcp.Auth.Tiers.{Tier, nothing, highest, tier_for_access_role}
use gads_write_mcp.Python.Text.{Runtime, normalised, is_empty_text}

-- The role of one account could not be read.
pub record RoleReadError : Type 0 where
  pub account : String
  pub exc : String

-- The other ways in which a lookup for the menu fails: an outage of the manager, or of every account.
pub data TierLookupError : Type 0 where
  accounts_unknown : String → TierLookupError
  no_account_answered : List (String × RoleReadError) → TierLookupError

-- `managed` is the set of managed ids, sorted. A lookup for an account, or for the menu where it is
-- `none`, reads the clock once when it asks the cache and once when it files the answer.
pub record RoleSource : Type 0 where
  pub access_role : (customer_id email : String) → Result String (Option String)
  pub login_customer_id : String
  pub managed : Result String (List String)
  pub asked : Option String → ℕ
  pub answered : Option String → ℕ

abbrev read_role_answer :
    String → Result String (Option String) → Result RoleReadError (Option String)
read_role_answer id (err exc) = err (record { account = id; exc = exc })
read_role_answer id (ok role) = ok role

-- `_read_role`
abbrev pub read_role : RoleSource → String → String → Result RoleReadError (Option String)
read_role r id email = read_role_answer id (r.access_role id email)

-- The role on the manager account, where the account itself has no row.
abbrev or_manager :
    RoleSource → String → String → Option String → Result RoleReadError (Option String)
or_manager r id email (some role) = ok (some role)
or_manager r id email none =
    if str_eq id r.login_customer_id then ok none else read_role r r.login_customer_id email

module _ ⦃py : Runtime⦄ where
  -- `_resolve_uncached`
  unfoldable pub resolve_uncached : RoleSource → String → String → Result RoleReadError Tier
  unfolding tier_for_access_role
  resolve_uncached r email id = do
    own ← read_role r id email
    role ← or_manager r id email own
    ok (tier_for_access_role role)

  abbrev filed :
      RoleSource
      → String
      → String
      → TierCache
      → Result RoleReadError Tier
      → Result RoleReadError Tier × TierCache
  unfolding put
  filed r email id cache (err e) = (err e, cache)
  filed r email id cache (ok t) = (ok t, put email (some id) t (r.answered (some id)) cache)

  abbrev or_asked :
      RoleSource → String → String → Option Tier × TierCache → Result RoleReadError Tier × TierCache
  unfolding filed resolve_uncached
  or_asked r email id (some t, cache) = (ok t, cache)
  or_asked r email id (none, cache) = filed r email id cache (resolve_uncached r email id)

  unfoldable pub resolve :
      RoleSource → Caller → String → TierCache → Result RoleReadError Tier × TierCache
  unfolding normalised or_asked get
  resolve r caller id cache =
      let email = normalised caller.email in
      if is_empty_text email
      then (ok nothing, cache)
      else or_asked r email id (get email (some id) (r.asked (some id)) cache)

  -- The tiers found and the failures, in the order of the accounts.
  pub record Survey : Type 0 where
    pub found : List Tier
    pub failures : List (String × RoleReadError)
    pub cache : TierCache

  abbrev noted : String → Result RoleReadError Tier → Survey → Survey
  noted id (ok t) s = record s { found = t ∷ s.found }
  noted id (err e) s = record s { failures = (id, e) ∷ s.failures }

  unfoldable pub survey : RoleSource → Caller → List String → TierCache → Survey
  unfolding resolve
  survey r caller [] cache = record { found = []; failures = []; cache = cache }
  survey r caller (id ∷ ids) cache =
      let (answer, next) = resolve r caller id cache in noted id answer (survey r caller ids next)

  abbrev best_of :
      RoleSource → String → Survey → List Tier → Result TierLookupError Tier × TierCache
  unfolding highest put
  best_of r email s [] = (err (no_account_answered s.failures), s.cache)
  best_of r email s (t ∷ ts) =
      let tier = highest (t ∷ ts) in (ok tier, put email none tier (r.answered none) s.cache)

  abbrev surveyed :
      RoleSource
      → Caller
      → String
      → TierCache
      → Result String (List String)
      → Result TierLookupError Tier × TierCache
  unfolding survey best_of
  surveyed r caller email cache (err exc) = (err (accounts_unknown exc), cache)
  surveyed r caller email cache (ok []) = (ok nothing, cache)
  surveyed r caller email cache (ok (id ∷ ids)) =
      let s = survey r caller (id ∷ ids) cache in best_of r email s s.found

  abbrev or_surveyed :
      RoleSource
      → Caller
      → String
      → Option Tier × TierCache
      → Result TierLookupError Tier × TierCache
  unfolding surveyed
  or_surveyed r caller email (some t, cache) = (ok t, cache)
  or_surveyed r caller email (none, cache) = surveyed r caller email cache r.managed

  unfoldable pub visible_tier :
      RoleSource → Caller → TierCache → Result TierLookupError Tier × TierCache
  unfolding normalised or_surveyed get
  visible_tier r caller cache =
      let email = normalised caller.email in
      if is_empty_text email
      then (ok nothing, cache)
      else or_surveyed r caller email (get email none (r.asked none) cache)

  -- OverridingTierResolver: `_override_for`, and the two lookups on top of it.
  unfoldable pub override_of : RoleTable → Caller → Option Tier
  unfolding normalised override_for
  override_of table caller =
      let email = normalised caller.email in
      if is_empty_text email then none else override_for table email

  abbrev overridden {ℓ} :
      {E : Type ℓ} → Option Tier → TierCache → Result E Tier × TierCache → Result E Tier × TierCache
  overridden (some t) cache primary = (ok t, cache)
  overridden none cache primary = primary

  unfoldable pub overriding_resolve :
      RoleTable → RoleSource → Caller → String → TierCache → Result RoleReadError Tier × TierCache
  unfolding override_of resolve
  overriding_resolve table r caller id cache =
      overridden (override_of table caller) cache (resolve r caller id cache)

  unfoldable pub overriding_visible_tier :
      RoleTable → RoleSource → Caller → TierCache → Result TierLookupError Tier × TierCache
  unfolding override_of visible_tier
  overriding_visible_tier table r caller cache =
      overridden (override_of table caller) cache (visible_tier r caller cache)
