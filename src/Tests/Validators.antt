-- ===== src/Tests/Validators.antt =====
-- Inputs of the validators, and the table of checks at one call.
use gads_write_mcp.Base.{
  ℕ, ◌+◌, ◌≤◌, String, ◌≡◌, refl, ◌≢◌, ◌↔◌, ◌&&◌, not, true, false, none, some, [], ◌∷◌, ok,
  is_some, str_eq, eq_iff, sym, inl, inr, Bool-cases, if◌then◌else◌,
}
use Prim.Native.String.{◌++◌ as append}
use mathlib.Core.Path.{subst}
use gads_write_mcp.Base.Dict.{lookup}
use gads_write_mcp.Python.Text.{
  strip, lstrip, rstrip, is_space, stripped_text, one_of, any_char, all_chars, is_digits,
  char_count,
}
use gads_write_mcp.Python.Value.{Value, null, str, Arguments, end, get_or}
use gads_write_mcp.Safety.Validators.Ads.{SearchAd, validate_rsa}
use gads_write_mcp.Safety.Validators.Accepted.SearchAds.{IsServable, validate_rsa-valid}
use gads_write_mcp.Safety.Validators.Reports.{
  Patterns, validate_date_range, validate_gaql_query, query_problems, resource_problems,
}
use gads_write_mcp.Safety.Validators.Accepted.Reports.{
  IsDate, IsBounded, validate_date_range-valid, validate_gaql_query-IsBounded,
}
use gads_write_mcp.Safety.Validators.Text.{is_dash, validate_customer_id, validate_numeric_id}
use gads_write_mcp.Tools.Operations.{ToolChecks, nothing_read, operations}
use gads_write_mcp.Tools.Operations.Laws.{operations-drafts, operations-account}
use gads_write_mcp.Tools.Operations.Validation.{
  validate_campaign_status_args, account_problems, id_problems,
}
use gads_write_mcp.Tools.Registry.{spec_for, is_registered}
use gads_write_mcp.Tools.Rechecks.Campaigns.{
  manual_bidding_strategies, has_bid, ad_group_campaign_verdict,
}
use gads_write_mcp.Tools.Rechecks.Campaigns.Laws.{ad_group_campaign_verdict-allowed_iff}
use gads_write_mcp.Tests.Rechecks.{campaign}
use gads_write_mcp.Tests.{plain, policy}

abbrev ad : SearchAd
ad = record {
  headlines = str "Shoes" ∷ str "Boots" ∷ str "Sandals" ∷ [];
  descriptions = str "For all feet" ∷ str "Free returns" ∷ [];
  final_urls = str "https://shop.example" ∷ [];
  path1 = null;
  path2 = null;
}

validate_rsa-valid_example :
    (validate_rsa ("shop.example" ∷ []) ad ≡ []) ↔ IsServable ("shop.example" ∷ []) ad
validate_rsa-valid_example = validate_rsa-valid ("shop.example" ∷ []) ad

validate_date_range-valid_example :
    (validate_date_range 365 (str "2026-01-01") (str "2026-01-31") ≡ []) ↔ (
      (start : ℕ) × (end_day : ℕ) × IsDate (str "2026-01-01") start
      × IsDate (str "2026-01-31") end_day
      × (start ≤ end_day)
      × (end_day + 1 ≤ start + 365))
validate_date_range-valid_example =
    validate_date_range-valid 365 (str "2026-01-01") (str "2026-01-31")

-- A reader of queries that knows two texts.
abbrev patterns : Patterns
patterns = record {
  resource = λ text. some "campaign";
  limit = λ text. if str_eq text "SELECT campaign.id FROM campaign" then none else some 500;
  parameters = λ text. false;
}

abbrev query : Value
query = str "SELECT campaign.id FROM campaign"

found :
    (text : String)
    → patterns.limit text ≡ none
    → patterns.limit (append text " LIMIT 500") ≡ some 500
found text h = elim (Bool-cases (str_eq text "SELECT campaign.id FROM campaign")) [
  | inl same ↦
      subst (λ t. patterns.limit (append t " LIMIT 500") ≡ some 500)
        (sym ((eq_iff text "SELECT campaign.id FROM campaign").0 same)) refl
  | inr differs ↦ cc (rw differs at h)
]

accepted_example : validate_gaql_query patterns query ≡ []
unfolding validate_gaql_query query_problems resource_problems stripped_text strip lstrip rstrip
    is_space char_count any_char one_of
accepted_example = refl

validate_gaql_query-IsBounded_example : IsBounded patterns query
validate_gaql_query-IsBounded_example =
    validate_gaql_query-IsBounded patterns query found accepted_example

operations-drafts_example :
    is_some (lookup "pause_campaign" operations)
    ≡ is_registered "pause_campaign"
      && ((spec_for "pause_campaign").writes && not (spec_for "pause_campaign").applies_plan)
operations-drafts_example = operations-drafts "pause_campaign"

abbrev arguments : Arguments
arguments = ("customer_id", str "1234567890") ∷ ("campaign_id", str "7") ∷ []

abbrev row : ToolChecks
row = record {
  validate = validate_campaign_status_args;
  rereading = nothing_read;
  spend_delta = none;
}

row_example : lookup "pause_campaign" operations ≡ some row
unfolding lookup
row_example = refl

valid_example : row.validate policy arguments ≡ ok []
unfolding validate_campaign_status_args account_problems id_problems validate_customer_id
    validate_numeric_id stripped_text strip lstrip rstrip is_space any_char all_chars is_digits
    char_count lookup
valid_example = refl

operations-account_example :
    (any_char is_dash (stripped_text (get_or arguments "customer_id" (str ""))) ≡ false)
    × (is_digits (stripped_text (get_or arguments "customer_id" (str ""))) ≡ true)
    × (char_count (stripped_text (get_or arguments "customer_id" (str ""))) ≡ 10)
operations-account_example =
    operations-account "pause_campaign" row policy arguments row_example valid_example

ad_group_campaign_verdict-allowed_iff_example :
    ((ad_group_campaign_verdict (some campaign) end).allowed ≡ true) ↔ (
      (plain.upper campaign.status ≢ "REMOVED")
      × (plain.upper (strip campaign.channel_type) ≡ "SEARCH")
      × (plain.upper (strip campaign.bidding_strategy_type) ≢ "")
      × (has_bid end
          ≡ one_of (plain.upper (strip campaign.bidding_strategy_type)) manual_bidding_strategies))
ad_group_campaign_verdict-allowed_iff_example = ad_group_campaign_verdict-allowed_iff campaign end
