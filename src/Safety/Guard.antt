-- ===== src/Safety/Guard.antt =====
-- safety/guards.py: the gate. One call of `check` asks each collaborator at most once, so what the
-- collaborators answer during the call is a record; the audit log is the state. The wording of a
-- refusal is a parameter: a denial is data.
mod Types
pub mod Order
pub mod Complete
pub mod Audited
pub use Types.*
use gads_write_mcp.Base.{
  String, Bool, true, false, not, ◌&&◌, ◌||◌, Option, none, some, List, [], ◌∷◌, map, if◌then◌else◌,
  Result, ok, err, is_some, is_empty,
}
use gads_write_mcp.Auth.Identity.{Caller}
use gads_write_mcp.Auth.Tiers.{Tier, nothing, tier_at_least}
use gads_write_mcp.Python.Decimal.{Decimal, Number, finite, whole}
use gads_write_mcp.Python.Value.{Value, dec, Arguments, Fields}
use gads_write_mcp.Python.Text.{Runtime, is_empty_text}
use gads_write_mcp.Safety.Units.{Raised, invalid_operation}
use gads_write_mcp.Safety.Policy.{Policy, PolicyVerdict, Reason, for_account, evaluate_operation}
use gads_write_mcp.Safety.Validators.{Problem}
use gads_write_mcp.Safety.Accounts.{ManagedAccount}
use gads_write_mcp.Safety.Audit.Log.{
  AuditRecord, AuditLog, Disk, OsError, append, redacted_arguments,
}
use gads_write_mcp.Safety.Spend.{total_increase_units}
use gads_write_mcp.Tools.Registry.{ToolSpec, spec_for, is_registered}

abbrev or_undefined : Option Decimal → Result Raised Decimal
or_undefined none = err invalid_operation
or_undefined (some d) = ok d

module _ ⦃py : Runtime⦄ where
  -- 7. The policy limits, the only check that reads the ledger.
  abbrev limited :
      Services
      → GuardRequest
      → Tier
      → Policy
      → Decimal
      → Result Raised PolicyVerdict
      → Result Raised GuardDecision
  limited s r tier policy spend_today (err e) = err e
  limited s r tier policy spend_today (ok v) =
      if v.allowed
      then ok (permission s r tier policy spend_today)
      else ok (refusal s r policy_limits denied tier policy (map policy_reason v.reasons))

  abbrev spent :
      Services
      → GuardRequest
      → Tier
      → Policy
      → (Policy → Tier → Decimal → Result Raised PolicyVerdict)
      → Result Raised Decimal
      → Result Raised GuardDecision
  spent s r tier policy evaluate (err e) = err e
  spent s r tier policy evaluate (ok total) =
      limited s r tier policy total (evaluate policy tier total)

  unfoldable pub by_limits :
      Services
      → GuardRequest
      → AuditLog
      → Caller
      → Tier
      → Policy
      → Option (Policy → Tier → Decimal → Result Raised PolicyVerdict)
      → Result Raised GuardDecision
  unfolding total_increase_units
  by_limits s r log c tier policy none = ok (permission s r tier policy (whole 0))
  by_limits s r log c tier policy (some evaluate) =
      spent s r tier policy evaluate
        (or_undefined (total_increase_units c.email (s.date_in policy.timezone) log))

  -- 6. Field validation.
  abbrev validated :
      Services
      → GuardRequest
      → AuditLog
      → Caller
      → Tier
      → Policy
      → Result Raised (List Problem)
      → Result Raised GuardDecision
  unfolding by_limits
  validated s r log c tier policy (err e) = err e
  validated s r log c tier policy (ok problems) =
      if is_empty problems
      then by_limits s r log c tier policy r.evaluate
      else ok (refusal s r validation denied tier policy (map problem problems))

  unfoldable pub by_validation :
      Services
      → GuardRequest
      → AuditLog
      → Caller
      → Tier
      → Policy
      → Option (Policy → Result Raised (List Problem))
      → Result Raised GuardDecision
  unfolding validated by_limits
  by_validation s r log c tier policy none = by_limits s r log c tier policy r.evaluate
  by_validation s r log c tier policy (some validate) =
      validated s r log c tier policy (validate policy)

  -- 5. Blocked operations.
  unfoldable pub by_operation :
      Services → GuardRequest → AuditLog → Caller → Tier → Policy → Result Raised GuardDecision
  unfolding by_validation evaluate_operation
  by_operation s r log c tier policy =
      let v = operation_verdict policy (spec_for r.tool).operation in
      if v.allowed
      then by_validation s r log c tier policy r.validate
      else ok (refusal s r blocked_operation denied tier policy (map policy_reason v.reasons))

  -- 4. The managed account, whose currency and timezone go into the policy.
  abbrev managed :
      Services
      → GuardRequest
      → AuditLog
      → Caller
      → Tier
      → String
      → Result String (Option ManagedAccount)
      → Result Raised GuardDecision
  unfolding by_operation for_account
  managed s r log c tier id (err exc) =
      ok (
        refusal s r managed_account_lookup lookup_failed tier s.policy
          (account_unknown id exc ∷ []))
  managed s r log c tier id (ok none) =
      ok (refusal s r managed_account denied tier s.policy (not_managed id ∷ []))
  managed s r log c tier id (ok (some a)) =
      by_operation s r log c tier (for_account a.currency_code a.timezone s.policy)

  unfoldable pub by_account :
      Services
      → GuardRequest
      → AuditLog
      → Caller
      → Tier
      → Option String
      → Result Raised GuardDecision
  unfolding managed by_operation
  by_account s r log c tier none = by_operation s r log c tier s.policy
  by_account s r log c tier (some id) = managed s r log c tier id (s.account id)

  -- 3. The tier.
  unfoldable pub by_tier :
      Services → GuardRequest → AuditLog → Caller → Result String Tier → Result Raised GuardDecision
  unfolding by_account spec_for
  by_tier s r log c (err exc) =
      ok (refusal s r tier_lookup lookup_failed nothing s.policy (tier_unknown exc ∷ []))
  by_tier s r log c (ok t) =
      let required = (spec_for r.tool).required_tier in
      if tier_at_least t required
      then by_account s r log c t r.customer_id
      else ok (
          refusal s r tier_level denied nothing s.policy
            (tier_too_low r.tool required t r.customer_id ∷ []))

  -- 2. Identity.
  unfoldable pub by_identity :
      Services → GuardRequest → AuditLog → Option Caller → Result Raised GuardDecision
  unfolding by_tier
  by_identity s r log none = ok (refusal s r identity denied nothing s.policy (no_identity ∷ []))
  by_identity s r log (some c) =
      if is_empty_text c.email
      then ok (refusal s r identity denied nothing s.policy (no_identity ∷ []))
      else by_tier s r log c (tier_answer s c r.customer_id)

  -- 0 and 1. The registry and the kill switch; then the rest in order.
  unfoldable pub decide : Services → GuardRequest → AuditLog → Result Raised GuardDecision
  unfolding by_identity is_registered spec_for
  decide s r log =
      if not (is_registered r.tool)
      then ok (refusal s r registry denied nothing s.policy (not_registered r.tool ∷ []))
      else if (spec_for r.tool).writes && not s.write_enabled
      then ok (refusal s r kill_switch denied nothing s.policy (writes_disabled ∷ []))
      else by_identity s r log r.caller

module _ ⦃py : Runtime⦄ (describe : Denial → String) where
  -- The record that `_write_audit` builds of a decision.
  unfoldable pub decision_record :
      Services → GuardRequest → GuardDecision → Policy → Option Number → AuditRecord
  unfolding redacted_arguments
  decision_record s r d policy spend_delta = record {
    timestamp = s.timestamp;
    local_date = s.date_in policy.timezone;
    user_email = known_email d.caller_email;
    tool = d.tool;
    verdict = verdict_text d.verdict;
    dry_run = r.dry_run;
    applied = false;
    arguments = redacted_arguments r.arguments;
    customer_id = d.customer_id;
    plan_id = r.plan_id;
    denied_reasons = map describe d.reasons;
    resource_names = [];
    spend_delta_units = decimal_text py.show spend_delta;
    result = none;
    error = none;
  }

  -- A decision is logged, and a failure to log one is not raised.
  unfoldable pub write_audit :
      Services → GuardRequest → GuardDecision → Policy → Option Number → AuditLog → AuditLog
  unfolding append decision_record
  write_audit s r d policy spend_delta log =
      (append s.disk (decision_record s r d policy spend_delta) log).1

  -- A refusal's line carries no spend.
  abbrev logged :
      Services
      → GuardRequest
      → AuditLog
      → Result Raised GuardDecision
      → Result Raised GuardDecision × AuditLog
  unfolding write_audit
  logged s r log (err e) = (err e, log)
  logged s r log (ok d) =
      (ok d, write_audit s r d d.policy (if d.is_allowed then r.spend_delta_units else none) log)

  unfoldable pub check : Services → GuardRequest → AuditLog → Result Raised GuardDecision × AuditLog
  unfolding decide logged write_audit
  check s r log = logged s r log (decide s r log)

module _ ⦃py : Runtime⦄ where
  -- The record of a mutation; `error` is set where it failed.
  unfoldable pub application_record :
      Services
      → GuardDecision
      → Arguments
      → Option String
      → List String
      → Option Number
      → Option Fields
      → Option String
      → Bool
      → AuditRecord
  unfolding redacted_arguments
  application_record s d arguments plan_id resource_names spend_delta result error dry_run =
      record {
        timestamp = s.timestamp;
        local_date = s.date_in d.policy.timezone;
        user_email = known_email d.caller_email;
        tool = d.tool;
        verdict = if is_some error then "error" else "allowed";
        dry_run = dry_run;
        applied = not (is_some error) && not dry_run;
        arguments = redacted_arguments arguments;
        customer_id = d.customer_id;
        plan_id = plan_id;
        denied_reasons = [];
        resource_names = resource_names;
        spend_delta_units = decimal_text py.show spend_delta;
        result = result;
        error = error;
      }

  unfoldable pub record_application :
      Services
      → GuardDecision
      → Arguments
      → Option String
      → List String
      → Option Number
      → Option Fields
      → Option String
      → Bool
      → AuditLog
      → Result OsError (Unit {0}) × AuditLog
  unfolding append application_record
  record_application s d arguments plan_id resource_names spend_delta result error dry_run log =
      append s.disk
        (application_record s d arguments plan_id resource_names spend_delta result error dry_run)
        log
