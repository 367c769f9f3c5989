-- ===== src/Tools/Rechecks/Campaigns.antt =====
-- tools/operations.py: whether an ad group, locations or new dates fit the campaign as it is now.
pub mod Laws
use gads_write_mcp.Base.{
  String, Bool, true, false, not, ◌&&◌, Option, none, some, List, [], ◌∷◌, str_eq, is_empty,
  if◌then◌else◌, Result, ok,
}
use gads_write_mcp.Auth.Tiers.{Tier}
use gads_write_mcp.Python.Decimal.{Decimal}
use gads_write_mcp.Python.Text.{Runtime, strip, one_of, before_space, is_empty_text, text_of}
use gads_write_mcp.Python.Value.{
  Value, null, str, Arguments, Fields, entries, get, truthy, value_or,
}
use gads_write_mcp.Safety.Policy.{
  Policy, PolicyVerdict, Reason, allow, deny, campaign_unread, campaign_removed, wrong_channel,
  strategy_unknown, bid_required, bid_ignored, no_locations, presence_moved, schedule_invalid,
}
use gads_write_mcp.Safety.Units.{Raised}
use gads_write_mcp.Safety.Validators.{Problem}
use gads_write_mcp.Safety.Validators.Campaigns.{is_given, validate_campaign_schedule}
use gads_write_mcp.Tools.Rechecks.{CampaignSummary}

abbrev pub manual_bidding_strategies : List String
manual_bidding_strategies = "MANUAL_CPC" ∷ "ENHANCED_CPC" ∷ []

-- `value is not None`
abbrev pub is_there : Value → Bool
is_there null = false
is_there v = true

-- `payload.get("cpc_bid_micros") is not None`
abbrev pub has_bid : Fields → Bool
has_bid payload = is_there (get (entries payload) "cpc_bid_micros")

abbrev refuse : Reason → PolicyVerdict
refuse reason = deny (reason ∷ [])

-- The bid against a strategy that is known.
abbrev pub bid_verdict : Bool → Bool → PolicyVerdict
bid_verdict manual bid =
    if manual && not bid
    then refuse bid_required
    else if not manual && bid
    then refuse bid_ignored
    else allow

abbrev schedule_verdict : List Problem → PolicyVerdict
schedule_verdict problems = if is_empty problems then allow else refuse (schedule_invalid problems)

module _ ⦃py : Runtime⦄ where
  unfoldable pub ad_group_campaign_verdict : Option CampaignSummary → Fields → PolicyVerdict
  unfolding strip one_of
  ad_group_campaign_verdict none payload = refuse campaign_unread
  ad_group_campaign_verdict (some current) payload =
      let strategy = py.upper (strip current.bidding_strategy_type) in
      if str_eq (py.upper current.status) "REMOVED"
      then refuse campaign_removed
      else if not (str_eq (py.upper (strip current.channel_type)) "SEARCH")
      then refuse wrong_channel
      else if is_empty_text strategy
      then refuse strategy_unknown
      else bid_verdict (one_of strategy manual_bidding_strategies) (has_bid payload)

  unfoldable pub recheck_create_ad_group :
      Policy
      → Tier
      → Arguments
      → Option CampaignSummary
      → Fields
      → Decimal
      → Result Raised PolicyVerdict
  unfolding ad_group_campaign_verdict
  recheck_create_ad_group policy tier arguments current payload spend_today =
      ok (ad_group_campaign_verdict current payload)

  -- The setting that the preview was built from, if the payload names one.
  abbrev pub expected_presence : Fields → String
  expected_presence payload =
      text_of (value_or (get (entries payload) "expected_positive_geo_target_type") (str ""))

  unfoldable pub location_target_verdict : Option CampaignSummary → Fields → PolicyVerdict
  location_target_verdict none payload = refuse campaign_unread
  location_target_verdict (some current) payload =
      let expected = expected_presence payload in
      let actual = current.positive_geo_target_type in
      if str_eq (py.upper current.status) "REMOVED"
      then refuse campaign_removed
      else if not (truthy (get (entries payload) "geo_target_constant_ids"))
      then refuse no_locations
      else if not (is_empty_text expected)
          && not (is_empty_text actual)
          && not (str_eq expected actual)
      then refuse presence_moved
      else allow

  unfoldable pub recheck_location_target :
      Policy
      → Tier
      → Arguments
      → Option CampaignSummary
      → Fields
      → Decimal
      → Result Raised PolicyVerdict
  unfolding location_target_verdict
  recheck_location_target policy tier arguments current payload spend_today =
      ok (location_target_verdict current payload)

  -- `_date_part`
  unfoldable pub date_part : String → String
  unfolding strip before_space
  date_part date_time = before_space (strip date_time)

  unfoldable pub update_campaign_verdict : Option CampaignSummary → Arguments → PolicyVerdict
  unfolding is_given validate_campaign_schedule date_part
  update_campaign_verdict none arguments = refuse campaign_unread
  update_campaign_verdict (some current) arguments =
      if str_eq (py.upper current.status) "REMOVED"
      then refuse campaign_removed
      else if not (is_given (get arguments "end_date"))
      then allow
      else if is_given (get arguments "start_date")
      then allow
      else schedule_verdict (
          validate_campaign_schedule (date_part current.start_date_time) null
            (get arguments "end_date"))

  unfoldable pub recheck_update_campaign :
      Policy
      → Tier
      → Arguments
      → Option CampaignSummary
      → Fields
      → Decimal
      → Result Raised PolicyVerdict
  unfolding update_campaign_verdict
  recheck_update_campaign policy tier arguments current payload spend_today =
      ok (update_campaign_verdict current arguments)
