-- ===== src/Tools/Rechecks.antt =====
-- The budget rules of tools/operations.py, judged against the campaign as it is now: a
-- CampaignSummary of ads/reads.py, of which the fields that the rules read are here.
pub mod Laws
pub mod Campaigns
pub mod Bids
use gads_write_mcp.Base.{
  ℕ, String, Bool, true, false, not, ◌&&◌, Option, none, some, List, [], ◌∷◌, ◌==◌, str_eq,
  if◌then◌else◌, Result, ok, err, ◌>>=◌,
}
use gads_write_mcp.Base.Int.{ℤ, pos, pos_part, ltb_ℤ}
use gads_write_mcp.Auth.Tiers.{Tier}
use gads_write_mcp.Python.Decimal.{Decimal, finite, whole, ltd, sub, div}
use gads_write_mcp.Python.Text.{Runtime, text_of, is_empty_text}
use gads_write_mcp.Python.Value.{Value, dec, str, Arguments, Fields, entries, get, value_or}
use gads_write_mcp.Safety.Policy.{
  Policy, PolicyVerdict, allow, deny, shared_budget, budget_users_unknown, budget_moved,
  not_a_number, no_current_budget, evaluate_budget_change,
}
use gads_write_mcp.Safety.Units.{
  Raised, money, invalid_operation, type_error, coerce_units, micros_per_unit,
}

pub record CampaignSummary : Type 0 where
  pub daily_budget_micros : ℤ
  pub budget_resource_name : String
  pub budget_reference_count : ℤ
  pub status : String
  pub channel_type : String
  pub bidding_strategy_type : String
  pub positive_geo_target_type : String
  pub start_date_time : String

-- Exact, with no rounding to cents.
unfoldable pub units_from_micros : ℤ → Decimal
unfolding div
units_from_micros micros = div (record { num = micros; places = 0 }) (whole micros_per_unit)

-- Only a budget that exactly one campaign uses may be changed.
unfoldable pub shared_budget_verdict : CampaignSummary → PolicyVerdict
shared_budget_verdict current =
    let count = current.budget_reference_count in
    if not (ltb_ℤ count (pos 1)) && not (ltb_ℤ (pos 1) count)
    then allow
    else if ltb_ℤ (pos 1) count
    then deny (shared_budget (pos_part count) ∷ [])
    else deny (budget_users_unknown ∷ [])

-- A MoneyError becomes `None`.
abbrev usable : Result Raised Decimal → Result Raised (Option Decimal)
usable (ok d) = ok (some d)
usable (err (money e)) = ok none
usable (err invalid_operation) = err invalid_operation
usable (err type_error) = err type_error

module _ ⦃py : Runtime⦄ where
  unfoldable pub units_from : Arguments → String → Result Raised (Option Decimal)
  unfolding coerce_units
  units_from arguments name = usable (coerce_units (get arguments name))

  -- `str(payload.get("budget_resource_name") or "")`
  abbrev pub target_of : Fields → String
  target_of payload = text_of (value_or (get (entries payload) "budget_resource_name") (str ""))

  -- The campaign draws on another budget than the one that would be changed.
  unfoldable pub is_moved : CampaignSummary → Fields → Bool
  is_moved current payload =
      let target = target_of payload in
      not (is_empty_text target)
      && not (is_empty_text current.budget_resource_name)
      && not (str_eq target current.budget_resource_name)

  -- On the new amount, once it is read.
  unfoldable pub recheck_amount :
      Policy → Tier → Option CampaignSummary → Fields → Option Decimal → Result Raised PolicyVerdict
  unfolding shared_budget_verdict is_moved evaluate_budget_change units_from_micros
  recheck_amount policy tier current payload none = ok (deny (not_a_number ∷ []))
  recheck_amount policy tier none payload (some new) = ok (deny (no_current_budget ∷ []))
  recheck_amount policy tier (some current) payload (some new) =
      if not (shared_budget_verdict current).allowed
      then ok (shared_budget_verdict current)
      else if is_moved current payload
      then ok (deny (budget_moved ∷ []))
      else evaluate_budget_change policy tier
          (dec (finite (units_from_micros current.daily_budget_micros))) (dec (finite new))

  unfoldable pub recheck_budget :
      Policy
      → Tier
      → Arguments
      → Option CampaignSummary
      → Fields
      → Decimal
      → Result Raised PolicyVerdict
  unfolding recheck_amount units_from
  recheck_budget policy tier arguments current payload spend_today =
      units_from arguments "new_daily_budget" >>= recheck_amount policy tier current payload

  abbrev rise_over : Option CampaignSummary → Option Decimal → Option Decimal
  unfolding sub units_from_micros
  rise_over current none = none
  rise_over none (some new) = none
  rise_over (some current) (some new) =
      let delta = sub new (units_from_micros current.daily_budget_micros) in
      if ltd (whole 0) delta then some delta else none

  unfoldable pub budget_spend_delta :
      Arguments → Option CampaignSummary → Result Raised (Option Decimal)
  unfolding units_from rise_over
  budget_spend_delta arguments current =
      units_from arguments "new_daily_budget" >>= λ new. ok (rise_over current new)
