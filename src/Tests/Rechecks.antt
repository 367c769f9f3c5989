-- ===== src/Tests/Rechecks.antt =====
-- The re-check of a budget at a rise from 10 to 14.
use gads_write_mcp.Base.{◌≡◌, refl, Option, some, [], ◌∷◌, ok}
use gads_write_mcp.Base.Dict.{lookup}
use gads_write_mcp.Base.Int.{pos, times, ◌-ℤ◌}
use gads_write_mcp.Auth.Tiers.{operator}
use gads_write_mcp.Python.Decimal.{
  Decimal, whole, sub, div, mul, quantize, fix, half_even, count_digits,
}
use gads_write_mcp.Python.Value.{Arguments, int, end}
use gads_write_mcp.Safety.Policy.{allow, evaluate_budget_change, judge_budget}
use gads_write_mcp.Safety.Units.{coerce_units, percent_between}
use gads_write_mcp.Tools.Rechecks.{
  CampaignSummary, units_from_micros, units_from, shared_budget_verdict, is_moved, recheck_amount,
  recheck_budget,
}
use gads_write_mcp.Tools.Rechecks.Laws.{IsRechecked, recheck_budget-IsRechecked}
use gads_write_mcp.Tests.{plain, policy}

abbrev pub campaign : CampaignSummary
campaign = record {
  daily_budget_micros = pos 10000000;
  budget_resource_name = "budget";
  budget_reference_count = pos 1;
  status = "ENABLED";
  channel_type = "SEARCH";
  bidding_strategy_type = "MANUAL_CPC";
  positive_geo_target_type = "PRESENCE";
  start_date_time = "2026-01-01 00:00:00";
}

abbrev change : Arguments
change = ("new_daily_budget", int (pos 14)) ∷ []

rechecked_example : recheck_budget policy operator change (some campaign) end (whole 0) ≡ ok allow
unfolding recheck_budget recheck_amount units_from units_from_micros shared_budget_verdict is_moved
    evaluate_budget_change judge_budget coerce_units percent_between sub div mul quantize fix
    half_even count_digits times lookup ◌-ℤ◌
rechecked_example = refl

recheck_budget-IsRechecked_example :
    (new : Option Decimal) × (units_from change "new_daily_budget" ≡ ok new)
    × IsRechecked policy operator (some campaign) end new
recheck_budget-IsRechecked_example =
    recheck_budget-IsRechecked policy operator change (some campaign) end (whole 0) allow
      rechecked_example refl
