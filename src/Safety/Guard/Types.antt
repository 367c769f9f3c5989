-- ===== src/Safety/Guard/Types.antt =====
-- The data of the gate: its verdicts, what it asks and is asked, and the decisions it builds.
use gads_write_mcp.Base.{
  String, Bool, true, false, Option, none, some, List, [], if◌then◌else◌, Result,
}
use gads_write_mcp.Auth.Identity.{Caller}
use gads_write_mcp.Auth.Tiers.{Tier}
use gads_write_mcp.Python.Decimal.{Decimal, Number, whole}
use gads_write_mcp.Python.Value.{Value, dec, Arguments}
use gads_write_mcp.Python.Text.{is_empty_text}
use gads_write_mcp.Safety.Units.{Raised}
use gads_write_mcp.Safety.Policy.{Policy, PolicyVerdict, Reason, evaluate_operation}
use gads_write_mcp.Safety.Validators.{Problem}
use gads_write_mcp.Safety.Accounts.{ManagedAccount}
use gads_write_mcp.Safety.Audit.Log.{Disk}
use gads_write_mcp.Tools.Registry.{ToolSpec, spec_for}

-- The names under which a refusal is filed, in the order of the checks.
pub data FailedCheck : Type 0 where
  registry kill_switch identity tier_lookup tier_level managed_account_lookup managed_account
        blocked_operation validation policy_limits :
      FailedCheck

-- One reason of a refusal, with what its text shows.
pub data Denial : Type 0 where
  not_registered : String → Denial
  writes_disabled no_identity : Denial
  tier_unknown : String → Denial
  tier_too_low : (tool : String) (required actual : Tier) → Option String → Denial
  account_unknown : (id exc : String) → Denial
  not_managed : String → Denial
  policy_reason : Reason → Denial
  problem : Problem → Denial

pub data Verdict : Type 0 where
  allowed denied lookup_failed : Verdict

abbrev pub verdict_text : Verdict → String
verdict_text allowed = "allowed"
verdict_text denied = "denied"
verdict_text lookup_failed = "lookup_failed"

pub record GuardDecision : Type 0 where
  pub is_allowed : Bool
  pub tool : String
  pub verdict : Verdict
  pub tier : Tier
  pub caller_email : Option String
  pub customer_id : Option String
  pub reasons : List Denial
  pub failed_check : Option FailedCheck
  pub policy : Policy
  pub local_date : String
  pub spend_today_units : Decimal
  pub spec : ToolSpec

-- What the settings, the clock, the disk and the collaborators say during one call. `date_in zone`
-- is the calendar date of the call's moment in a timezone.
pub record Services : Type 0 where
  pub write_enabled : Bool
  pub policy : Policy
  pub timestamp : String
  pub date_in : String → String
  pub resolve : Caller → String → Result String Tier
  pub visible_tier : Caller → Result String Tier
  pub account : String → Result String (Option ManagedAccount)
  pub disk : Disk

-- The keyword arguments of `check`.
pub record GuardRequest : Type 0 where
  pub tool : String
  pub caller : Option Caller
  pub customer_id : Option String
  pub arguments : Arguments
  pub validate : Option (Policy → Result Raised (List Problem))
  pub evaluate : Option (Policy → Tier → Decimal → Result Raised PolicyVerdict)
  pub spend_delta_units : Option Number
  pub plan_id : Option String
  pub dry_run : Bool

abbrev pub email_of : Option Caller → Option String
email_of none = none
email_of (some c) = some c.email

-- `caller.email or "<unauthenticated>"`
abbrev pub known_email : Option String → String
known_email none = "<unauthenticated>"
known_email (some e) = if is_empty_text e then "<unauthenticated>" else e

abbrev pub decimal_text : (Value → String) → Option Number → Option String
decimal_text show none = none
decimal_text show (some d) = some (show (dec d))

-- A refusal, as both `deny` closures build it: `date_in` is read at the policy in scope.
abbrev pub refusal :
    Services → GuardRequest → FailedCheck → Verdict → Tier → Policy → List Denial → GuardDecision
refusal s r check verdict tier policy reasons = record {
  is_allowed = false;
  tool = r.tool;
  verdict = verdict;
  tier = tier;
  caller_email = email_of r.caller;
  customer_id = r.customer_id;
  reasons = reasons;
  failed_check = some check;
  policy = policy;
  local_date = s.date_in policy.timezone;
  spend_today_units = whole 0;
  spec = spec_for r.tool;
}

abbrev pub permission : Services → GuardRequest → Tier → Policy → Decimal → GuardDecision
permission s r tier policy spend_today = record {
  is_allowed = true;
  tool = r.tool;
  verdict = allowed;
  tier = tier;
  caller_email = email_of r.caller;
  customer_id = r.customer_id;
  reasons = [];
  failed_check = none;
  policy = policy;
  local_date = s.date_in policy.timezone;
  spend_today_units = spend_today;
  spec = spec_for r.tool;
}

-- The tier lookup: for the account if one is named, else for the menu.
abbrev pub tier_answer : Services → Caller → Option String → Result String Tier
tier_answer s c none = s.visible_tier c
tier_answer s c (some id) = if is_empty_text id then s.visible_tier c else s.resolve c id

-- A blocked operation; a tool with no operation name passes.
abbrev pub operation_verdict : Policy → Option String → PolicyVerdict
operation_verdict policy none = record { allowed = true; reasons = [] }
operation_verdict policy (some op) =
    if is_empty_text op
    then record { allowed = true; reasons = [] }
    else evaluate_operation policy op
