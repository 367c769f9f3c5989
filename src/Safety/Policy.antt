-- ===== src/Safety/Policy.antt =====
-- safety/policy.py: the few rules that refuse a change, as functions of an immutable snapshot.
-- Reasons are data with the values that their texts show.
pub mod Laws
use gads_write_mcp.Base.{
  ℕ, String, ◌≡◌, Bool, true, false, not, Option, none, some, List, [], ◌∷◌, ◌++◌, ◌&&◌, ◌==◌,
  Result, ok, err, ◌>>=◌, if◌then◌else◌, str_eq,
}
use gads_write_mcp.Base.Int.{ℤ, pos, abs}
use gads_write_mcp.Auth.Tiers.{Tier, nothing, readonly, operator, lead}
use gads_write_mcp.Python.Decimal.{Decimal, whole, ltd}
use gads_write_mcp.Python.Value.{Value, dec}
use gads_write_mcp.Python.Text.{Runtime, strip, one_of, is_empty_text}
use gads_write_mcp.Safety.Validators.{Problem}
use gads_write_mcp.Safety.Units.{Raised, coerce_units, percent_between, percent_change}

-- The same shape for budgets and for bids.
pub record Limits : Type 0 where
  pub max_increase_percent : Option Decimal

pub record TierLimits : Type 0 where
  pub budget : Limits
  pub bids : Limits

pub record Rules : Type 0 where
  pub new_entities_start_paused : Bool
  pub allowed_final_url_domains : List String

abbrev pub plan_ttl_seconds : ℤ
plan_ttl_seconds = pos 600

abbrev pub blocked_operations : List String
blocked_operations =
    "remove_campaign" ∷ "remove_ad_group" ∷ "remove_keyword" ∷ "remove_budget"
    ∷ "remove_conversion_action" ∷ "remove_ad" ∷ []

-- `_limits_by_tier` has an entry for every tier, so it is a function.
pub record Policy : Type 0 where
  pub rules : Rules
  pub blocked : List String
  pub ttl_seconds : ℤ
  pub single_use : Bool
  pub limits_for : Tier → TierLimits
  pub currency_code : String
  pub timezone : String

abbrev both_limits : Option Decimal → TierLimits
both_limits limit = record {
  budget = record { max_increase_percent = limit };
  bids = record { max_increase_percent = limit };
}

abbrev pub is_non_writing : Tier → Bool
is_non_writing nothing = true
is_non_writing readonly = true
is_non_writing _ = false

unfoldable pub build_policy : Option Decimal → List String → Policy
build_policy max_increase_percent domains = record {
  rules = record { new_entities_start_paused = true; allowed_final_url_domains = domains };
  blocked = blocked_operations;
  ttl_seconds = plan_ttl_seconds;
  single_use = true;
  limits_for =
      λ tier. both_limits (if is_non_writing tier then some (whole 0) else max_increase_percent);
  currency_code = "";
  timezone = "UTC";
}

-- `text.strip() or default`
abbrev strip_or : String → String → String
unfolding strip
strip_or s default = if is_empty_text (strip s) then default else strip s

unfoldable pub for_account : String → String → Policy → Policy
unfolding strip
for_account currency zone policy = record policy {
  currency_code = strip_or currency policy.currency_code;
  timezone = strip_or zone policy.timezone;
}

unfoldable pub blocks_operation : Policy → String → Bool
unfolding strip one_of
blocks_operation policy operation = one_of (strip operation) policy.blocked

-- Why a change is refused, here and by the rechecks of tools/operations.py.
pub data Reason : Type 0 where
  budget_not_positive bid_not_positive : (proposed : Decimal) (code : String) → Reason
  budget_from_zero bid_from_zero : Reason
  budget_past_backstop bid_past_backstop :
      (increase max_percent current proposed : Decimal) (code : String) → Reason
  operation_refused : String → Reason
  shared_budget : ℕ → Reason
  budget_users_unknown budget_moved not_a_number no_current_budget no_current_bid : Reason
  campaign_unread campaign_removed wrong_channel strategy_unknown bid_required bid_ignored : Reason
  no_locations presence_moved keyword_removed : Reason
  schedule_invalid : List Problem → Reason

pub record PolicyVerdict : Type 0 where
  pub allowed : Bool
  pub reasons : List Reason

abbrev pub allow : PolicyVerdict
allow = record { allowed = true; reasons = [] }

abbrev pub deny : List Reason → PolicyVerdict
deny reasons = record { allowed = false; reasons = reasons }

unfoldable pub merged_with : PolicyVerdict → PolicyVerdict → PolicyVerdict
merged_with a b =
    if a.allowed && b.allowed
    then a
    else record a { allowed = false; reasons = a.reasons ++ b.reasons }

-- The backstop on a rise: the percentage against the limit.
abbrev past_limit : (Decimal → Reason) → Decimal → Decimal → PolicyVerdict
past_limit reason limit increase = if ltd limit increase then deny (reason increase ∷ []) else allow

-- `percent_change` is asked only where a limit is set.
abbrev budget_rise : Policy → Option Decimal → Decimal → Decimal → Result Raised PolicyVerdict
unfolding percent_between
budget_rise policy none current proposed = ok allow
budget_rise policy (some limit) current proposed = do
  increase ← percent_between current proposed
  ok (
      past_limit (λ i. budget_past_backstop i limit current proposed policy.currency_code) limit
        increase)

unfoldable pub judge_budget : Policy → Tier → Decimal → Decimal → Result Raised PolicyVerdict
unfolding budget_rise
judge_budget policy tier current proposed =
    if not (ltd (whole 0) proposed)
    then ok (deny (budget_not_positive proposed policy.currency_code ∷ []))
    else if not (ltd current proposed)
    then ok allow
    else if abs current.num == 0
    then ok (deny (budget_from_zero ∷ []))
    else budget_rise policy (policy.limits_for tier).budget.max_increase_percent current proposed

-- A bid's percentage is worked out before the limit is looked at.
abbrev bid_limit : Policy → Option Decimal → Decimal → Decimal → Decimal → PolicyVerdict
bid_limit policy none current proposed increase = allow
bid_limit policy (some limit) current proposed increase =
    past_limit (λ i. bid_past_backstop i limit current proposed policy.currency_code) limit increase

unfoldable pub judge_bid : Policy → Tier → Decimal → Decimal → Result Raised PolicyVerdict
unfolding percent_between
judge_bid policy tier current proposed =
    if not (ltd (whole 0) proposed)
    then ok (deny (bid_not_positive proposed policy.currency_code ∷ []))
    else if not (ltd current proposed)
    then ok allow
    else if abs current.num == 0
    then ok (deny (bid_from_zero ∷ []))
    else percent_between current proposed >>= λ increase. ok (
        bid_limit policy (policy.limits_for tier).bids.max_increase_percent current proposed
          increase)

module _ ⦃py : Runtime⦄ where
  unfoldable pub evaluate_budget_change :
      Policy → Tier → Value → Value → Result Raised PolicyVerdict
  unfolding judge_budget coerce_units
  evaluate_budget_change policy tier current_units new_units = do
    current ← coerce_units current_units
    proposed ← coerce_units new_units
    judge_budget policy tier current proposed

  unfoldable pub evaluate_bid_change : Policy → Tier → Value → Value → Result Raised PolicyVerdict
  unfolding judge_bid coerce_units
  evaluate_bid_change policy tier current_units new_units = do
    current ← coerce_units current_units
    proposed ← coerce_units new_units
    judge_bid policy tier current proposed

unfoldable pub evaluate_operation : Policy → String → PolicyVerdict
unfolding blocks_operation
evaluate_operation policy operation =
    if blocks_operation policy operation then deny (operation_refused operation ∷ []) else allow
