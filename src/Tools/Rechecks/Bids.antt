-- ===== src/Tools/Rechecks/Bids.antt =====
-- tools/operations.py: the limits on a bid, against the ad group or the keyword as it is now.
use gads_write_mcp.Base.{
  String, Option, none, some, [], ◌∷◌, ◌==◌, str_eq, if◌then◌else◌, Result, ok, ◌>>=◌,
}
use gads_write_mcp.Base.Int.{ℤ, abs}
use gads_write_mcp.Auth.Tiers.{Tier}
use gads_write_mcp.Python.Decimal.{Decimal, finite}
use gads_write_mcp.Python.Text.{Runtime}
use gads_write_mcp.Python.Value.{dec, Arguments, Fields}
use gads_write_mcp.Safety.Policy.{
  Policy, PolicyVerdict, deny, not_a_number, no_current_bid, keyword_removed, evaluate_bid_change,
}
use gads_write_mcp.Safety.Units.{Raised}
use gads_write_mcp.Tools.Rechecks.{units_from_micros, units_from}

-- AdGroupSummary and KeywordSummary of ads/reads.py, in the fields that are read.
pub record AdGroupSummary : Type 0 where
  pub cpc_bid_micros : ℤ

pub record KeywordSummary : Type 0 where
  pub status : String
  pub cpc_bid_micros : ℤ
  pub effective_cpc_bid_micros : ℤ

unfoldable pub keyword_bid_baseline_micros : KeywordSummary → ℤ
keyword_bid_baseline_micros current =
    if abs current.effective_cpc_bid_micros == 0
    then current.cpc_bid_micros
    else current.effective_cpc_bid_micros

module _ ⦃py : Runtime⦄ where
  unfoldable pub recheck_bid_amount :
      Policy → Tier → Option AdGroupSummary → Option Decimal → Result Raised PolicyVerdict
  unfolding evaluate_bid_change units_from_micros
  recheck_bid_amount policy tier current none = ok (deny (not_a_number ∷ []))
  recheck_bid_amount policy tier none (some new) = ok (deny (no_current_bid ∷ []))
  recheck_bid_amount policy tier (some current) (some new) =
      evaluate_bid_change policy tier (dec (finite (units_from_micros current.cpc_bid_micros)))
        (dec (finite new))

  unfoldable pub recheck_bid :
      Policy
      → Tier
      → Arguments
      → Option AdGroupSummary
      → Fields
      → Decimal
      → Result Raised PolicyVerdict
  unfolding units_from recheck_bid_amount
  recheck_bid policy tier arguments current payload spend_today =
      units_from arguments "new_max_cpc" >>= recheck_bid_amount policy tier current

  unfoldable pub recheck_keyword_amount :
      Policy → Tier → Option KeywordSummary → Option Decimal → Result Raised PolicyVerdict
  unfolding evaluate_bid_change units_from_micros keyword_bid_baseline_micros
  recheck_keyword_amount policy tier current none = ok (deny (not_a_number ∷ []))
  recheck_keyword_amount policy tier none (some new) = ok (deny (no_current_bid ∷ []))
  recheck_keyword_amount policy tier (some current) (some new) =
      if str_eq (py.upper current.status) "REMOVED"
      then ok (deny (keyword_removed ∷ []))
      else evaluate_bid_change policy tier
          (dec (finite (units_from_micros (keyword_bid_baseline_micros current))))
          (dec (finite new))

  unfoldable pub recheck_keyword_bid :
      Policy
      → Tier
      → Arguments
      → Option KeywordSummary
      → Fields
      → Decimal
      → Result Raised PolicyVerdict
  unfolding units_from recheck_keyword_amount
  recheck_keyword_bid policy tier arguments current payload spend_today =
      units_from arguments "new_max_cpc" >>= recheck_keyword_amount policy tier current
