-- ===== src/Tools/Operations.antt =====
-- OPERATIONS of tools/operations.py: what the gate needs to judge each write tool, and the read of the
-- entity that a change is judged against.
pub mod Validation
pub mod Laws
use gads_write_mcp.Base.{
  String, Bool, true, false, Option, none, some, List, [], ◌∷◌, if◌then◌else◌, Result, ok, err, map,
}
use gads_write_mcp.Base.Dict.{Dict}
use gads_write_mcp.Auth.Tiers.{Tier}
use gads_write_mcp.Python.Decimal.{Decimal}
use gads_write_mcp.Python.Text.{Runtime, strip, text_of, is_empty_text}
use gads_write_mcp.Python.Value.{str, Arguments, Fields, get, value_or}
use gads_write_mcp.Safety.Policy.{Policy, PolicyVerdict}
use gads_write_mcp.Safety.Units.{Raised}
use gads_write_mcp.Tools.Operations.Validation.{
  Validator, validate_campaign_status_args, validate_ad_group_status_args,
  validate_keyword_status_args, validate_keyword_bid_args, validate_ad_status_args,
  validate_update_campaign_args, validate_budget_args, validate_negative_keyword_args,
  validate_keyword_args, validate_bid_args, validate_rsa_args, validate_create_ad_group_args,
  validate_location_target_args, validate_create_campaign_args,
}
use gads_write_mcp.Tools.Rechecks.{CampaignSummary, recheck_budget, budget_spend_delta}
use gads_write_mcp.Tools.Rechecks.Campaigns.{
  recheck_create_ad_group, recheck_location_target, recheck_update_campaign,
}
use gads_write_mcp.Tools.Rechecks.Bids.{
  AdGroupSummary, KeywordSummary, recheck_bid, recheck_keyword_bid,
}

abbrev pub Recheck : Type 0 → Type 0
Recheck Entity =
    Policy → Tier → Arguments → Option Entity → Fields → Decimal → Result Raised PolicyVerdict

abbrev pub SpendDelta : Type 0
SpendDelta = Arguments → Option CampaignSummary → Result Raised (Option Decimal)

-- `reads`, `id_argument` and `recheck` of a row go together: the kind of entity that is read is the
-- one that the re-check takes.
pub data Rereading : Type 0 where
  nothing_read : Rereading
  reads_campaign : (id_argument : String) → Recheck CampaignSummary → Rereading
  reads_ad_group : (id_argument : String) → Recheck AdGroupSummary → Rereading
  reads_keyword : (id_argument : String) → Recheck KeywordSummary → Rereading

pub record ToolChecks : Type 0 where
  pub validate : Validator
  pub rereading : Rereading
  pub spend_delta : Option SpendDelta

abbrev only : Validator → ToolChecks
only validate = record { validate = validate; rereading = nothing_read; spend_delta = none }

abbrev rereads : Validator → Rereading → ToolChecks
rereads validate rereading = record {
  validate = validate;
  rereading = rereading;
  spend_delta = none;
}

module _ ⦃py : Runtime⦄ where
  abbrev pub operations : Dict ToolChecks
  operations =
      ("pause_campaign", only validate_campaign_status_args)
      ∷ ("enable_campaign", only validate_campaign_status_args)
      ∷ ("pause_ad_group", only validate_ad_group_status_args)
      ∷ ("enable_ad_group", only validate_ad_group_status_args)
      ∷ ("pause_keyword", only validate_keyword_status_args)
      ∷ ("enable_keyword", only validate_keyword_status_args)
      ∷ ("pause_ad", only validate_ad_status_args)
      ∷ ("enable_ad", only validate_ad_status_args)
      ∷ (
        "update_keyword_bid",
        rereads validate_keyword_bid_args (reads_keyword "criterion_id" recheck_keyword_bid),
      )
      ∷ (
        "update_campaign",
        rereads validate_update_campaign_args
            (reads_campaign "campaign_id" recheck_update_campaign),
      )
      ∷ (
        "update_campaign_budget",
        record {
          validate = validate_budget_args;
          rereading = reads_campaign "campaign_id" recheck_budget;
          spend_delta = some budget_spend_delta;
        },
      )
      ∷ ("add_negative_keyword", only validate_negative_keyword_args)
      ∷ ("create_campaign", only validate_create_campaign_args)
      ∷ (
        "create_ad_group",
        rereads validate_create_ad_group_args
            (reads_campaign "campaign_id" recheck_create_ad_group),
      )
      ∷ (
        "add_location_target",
        rereads validate_location_target_args
            (reads_campaign "campaign_id" recheck_location_target),
      )
      ∷ ("add_keyword", only validate_keyword_args)
      ∷ (
        "update_ad_group_bid",
        rereads validate_bid_args (reads_ad_group "ad_group_id" recheck_bid),
      )
      ∷ ("create_responsive_search_ad", only validate_rsa_args)
      ∷ []
