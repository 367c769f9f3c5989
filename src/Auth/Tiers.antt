-- ===== src/Auth/Tiers.antt =====
-- auth/tiers.py: the permission tiers and their order; the role table of google_ads_roles.py.
pub mod Laws
use gads_write_mcp.Base.{
  ℕ, ◌≤◌, ◌<◌, String, ◌≡◌, refl, ◌≢◌, ◌↔◌, ◌⊎◌, inl, inr, Bool, true, false, Option, none, some,
  List, [], ◌∷◌, arith, leb, ltb, str_eq, if◌then◌else◌, All, Bool-cases,
}
use gads_write_mcp.Base.Dict.{Dict, lookup}
use gads_write_mcp.Python.Text.{Runtime, strip}

pub data Tier : Type 0 where
  nothing readonly operator lead : Tier

abbrev pub rank : Tier → ℕ
rank nothing = 0
rank readonly = 1
rank operator = 2
rank lead = 3

abbrev pub tier_at_least : Tier → Tier → Bool
tier_at_least actual required = leb (rank required) (rank actual)

-- `max(tiers, key=rank)` keeps the first of equals.
unfoldable pub highest_from : Tier → List Tier → Tier
highest_from best [] = best
highest_from best (t ∷ ts) = highest_from (if ltb (rank best) (rank t) then t else best) ts

unfoldable pub highest : List Tier → Tier
unfolding highest_from
highest [] = nothing
highest (t ∷ ts) = highest_from t ts

-- `ROLE_TO_TIER`
abbrev pub role_to_tier : Dict Tier
role_to_tier =
    ("ADMIN", lead)
    ∷ ("STANDARD", operator)
    ∷ ("READ_ONLY", readonly)
    ∷ ("EMAIL_ONLY", nothing)
    ∷ ("UNKNOWN", nothing)
    ∷ ("UNSPECIFIED", nothing)
    ∷ []

abbrev tier_or_nothing : Option Tier → Tier
tier_or_nothing none = nothing
tier_or_nothing (some t) = t

module _ ⦃py : Runtime⦄ where
  unfoldable pub tier_for_access_role : Option String → Tier
  unfolding lookup strip
  tier_for_access_role none = nothing
  tier_for_access_role (some role) = tier_or_nothing (lookup (py.upper (strip role)) role_to_tier)

pub rank_inj : (s t : Tier) → rank s ≡ rank t → s ≡ t
rank_inj nothing nothing h = refl
rank_inj readonly readonly h = refl
rank_inj operator operator h = refl
rank_inj lead lead h = refl
rank_inj _ _ h = absurd (omega arith)
