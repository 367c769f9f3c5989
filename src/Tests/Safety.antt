-- ===== src/Tests/Safety.antt =====
-- The theorems on the gate, the log, the limits, the accounts and the tiers at concrete inputs.
use gads_write_mcp.Base.{
  ◌≤◌, String, ◌≡◌, refl, ◌≢◌, ◌↔◌, ◌⊎◌, true, false, none, some, [], ◌∷◌, ◌++◌, ok, err, arith,
  All, if◌then◌else◌, eq_iff,
}
use gads_write_mcp.Auth.Tiers.{
  lead, Tier, nothing, readonly, operator, rank, highest, tier_for_access_role,
}
use gads_write_mcp.Auth.Tiers.Laws.{highest-least_upper, tier_for_access_role-writes}
use gads_write_mcp.Base.Dict.{lookup, insert}
use gads_write_mcp.Python.Decimal.{whole, ltd, add}
use gads_write_mcp.Python.Text.{strip, lstrip, rstrip, is_space, one_of}
use gads_write_mcp.Python.Value.{Arguments, str, dict, field, end}
use gads_write_mcp.Safety.Accounts.{
  AccountStore, from_summary, accounts_from, fresh_cache, current, get,
}
use gads_write_mcp.Safety.Accounts.Laws.{
  IsKnown, get-IsKnown, Outage, current-Outage, current-cached,
}
use gads_write_mcp.Safety.Audit.{redact}
use gads_write_mcp.Safety.Audit.Log.{AuditRecord, is_prunable, iter_records, append}
use gads_write_mcp.Safety.Audit.Redaction.{IsClean, redact-IsClean}
use gads_write_mcp.Safety.Guard.{
  GuardDecision, check, decide, by_identity, by_tier, by_account, by_operation, by_validation,
  by_limits, permission,
}
use gads_write_mcp.Safety.Guard.Audited.{IsLineOf, check-one_line, check-total}
use gads_write_mcp.Safety.Guard.Complete.{decide-allowed_iff}
use gads_write_mcp.Safety.Guard.Order.{IsPermitted}
use gads_write_mcp.Safety.Policy.{
  PolicyVerdict, for_account, blocks_operation, evaluate_operation, judge_budget,
}
use gads_write_mcp.Safety.Policy.Laws.{IsAcceptable, judge_budget-allowed_iff}
use gads_write_mcp.Safety.Spend.{total_increase_units, snapshot, tally_records}
use gads_write_mcp.Safety.Spend.Laws.{append-total_counted}
use gads_write_mcp.Tools.Registry.{spec_for, is_registered, annotations_for}
use gads_write_mcp.Tools.Registry.Laws.{spec_for_safe}
use gads_write_mcp.Tools.Middleware.{is_none, permitted}
use gads_write_mcp.Tools.Middleware.Laws.{annotations-permitted}
use gads_write_mcp.Tests.{
  plain, describe, account, policy, services, gate_call, log, disk, summary, cold,
}

decide-allowed_iff_example :
    ((d : GuardDecision) × (decide services gate_call log ≡ ok d) × (d.is_allowed ≡ true))
    ↔ ((t : Tier) × (p : _) × IsPermitted services gate_call log t p)
decide-allowed_iff_example = decide-allowed_iff services gate_call log

recent : is_prunable disk "2026-02-03" ≡ false
recent = refl

abbrev decision : GuardDecision
decision = permission services gate_call operator (for_account "EUR" "UTC" policy) (whole 0)

checked_example : (check describe services gate_call log).0 ≡ ok decision
unfolding check decide by_identity by_tier by_account by_operation by_validation by_limits spec_for
    is_registered for_account blocks_operation evaluate_operation one_of lookup strip lstrip rstrip
    is_space
checked_example = refl

decided_date : services.date_in decision.policy.timezone ≡ "2026-02-03"
decided_date = refl

check-one_line_example :
    (line : Arguments) × IsLineOf gate_call decision line
    × (iter_records
          (services.date_in decision.policy.timezone)
          (check describe services gate_call log).1
        ≡ iter_records (services.date_in decision.policy.timezone) log ++ line ∷ [])
check-one_line_example =
    check-one_line describe services gate_call log decision checked_example refl refl

check-total_example :
    total_increase_units "ann@example.com" "2026-02-03" (check describe services gate_call log).1
    ≡ total_increase_units "ann@example.com" "2026-02-03" log
check-total_example =
    check-total describe services gate_call log "ann@example.com" "2026-02-03" recent

-- A budget raised by 50.
abbrev raise : AuditRecord
raise = record {
  timestamp = "noon";
  local_date = "2026-02-03";
  user_email = "ann@example.com";
  tool = "update_campaign_budget";
  verdict = "allowed";
  dry_run = false;
  applied = true;
  arguments = end;
  customer_id = none;
  plan_id = none;
  denied_reasons = [];
  resource_names = [];
  spend_delta_units = some "50";
  result = none;
  error = none;
}

no_spend_yet : total_increase_units "ann@example.com" "2026-02-03" log ≡ some (whole 0)
unfolding total_increase_units snapshot tally_records iter_records lookup
no_spend_yet = refl

append-total_counted_example :
    total_increase_units "ann@example.com" "2026-02-03" (append disk raise log).1
    ≡ some (if ltd (whole 0) (whole 50) then add (whole 0) (whole 50) else whole 0)
append-total_counted_example =
    append-total_counted disk "ann@example.com" "2026-02-03" "50" (whole 50) raise log (whole 0)
      recent refl
      (record {
        on_date = refl;
        theirs = refl;
        done = refl;
        let_through = refl;
        has_delta = refl;
        not_empty = λ h. ground (arith, eq_iff "50" "");
        is_number = refl;
      })
      no_spend_yet

abbrev denial : AuditRecord
denial = record raise { applied = false; verdict = "denied" }

judge_budget-allowed_iff_example :
    ((v : PolicyVerdict) × (judge_budget policy operator (whole 10) (whole 14) ≡ ok v)
      × (v.allowed ≡ true))
    ↔ IsAcceptable (some (whole 50)) (whole 10) (whole 14)
judge_budget-allowed_iff_example = judge_budget-allowed_iff policy (whole 10) (whole 14) operator

redact-IsClean_example : IsClean (redact 0 (dict (field "api_key" (str "abc") end)))
redact-IsClean_example = redact-IsClean (dict (field "api_key" (str "abc") end))

abbrev unknown : String
unknown = "delete_all"

spec_for_safe_example :
    ((spec_for unknown).writes ≡ true → rank operator ≤ rank (spec_for unknown).required_tier)
    × ((spec_for unknown).required_tier ≡ nothing → unknown ≡ "health_check")
    × ((spec_for unknown).applies_plan ≡ true → unknown ≡ "confirm_and_apply")
spec_for_safe_example = spec_for_safe unknown

abbrev draft_tool : String
draft_tool = "add_keyword"

annotations-permitted_example :
    ((annotations_for draft_tool).read_only ≡ is_none (permitted false draft_tool lead))
    × (((annotations_for draft_tool).destructive ≡ false)
        ↔ ((is_registered draft_tool ≡ true) × (draft_tool ≢ "confirm_and_apply")))
annotations-permitted_example = annotations-permitted draft_tool

found_example : (get "12" 1 2 (ok (summary ∷ [])) cold).0 ≡ ok (some account)
unfolding get current fresh_cache accounts_from from_summary lookup insert strip lstrip rstrip
    is_space
found_example = refl

get-IsKnown_example : IsKnown account (strip "12") (ok (summary ∷ [])) cold.accounts
get-IsKnown_example = get-IsKnown "12" 1 2 (ok (summary ∷ [])) cold account found_example

-- A cache that ran out.
abbrev warm : AccountStore
warm = record { ttl = 10; accounts = some (("12", account) ∷ []); expires_at = 5 }

current-Outage_example : Outage (some (("12", account) ∷ [])) warm (current 6 7 (err "down") warm)
current-Outage_example = current-Outage 6 7 "down" warm

ran_out : fresh_cache 6 warm ≡ none
unfolding fresh_cache
ran_out = refl

current-cached_example :
    current 9 9 (err "down") (current 6 7 (ok (summary ∷ [])) warm).1
    ≡ current 6 7 (ok (summary ∷ [])) warm
current-cached_example =
    current-cached 6 7 (summary ∷ []) warm 9 9 (err "down") ran_out (omega arith) (omega arith)

highest-least_upper_example :
    All (λ t. rank t ≤ rank (highest (readonly ∷ operator ∷ []))) (readonly ∷ operator ∷ [])
    × (All (λ t. rank t ≤ rank operator) (readonly ∷ operator ∷ [])
        → rank (highest (readonly ∷ operator ∷ [])) ≤ rank operator)
highest-least_upper_example = highest-least_upper (readonly ∷ operator ∷ []) operator

standard_writes : 2 ≤ rank (tier_for_access_role (some "STANDARD"))
unfolding tier_for_access_role lookup strip lstrip rstrip is_space
standard_writes = omega arith

tier_for_access_role-writes_example :
    (r : String) × (some "STANDARD" ≡ some r)
    × ((plain.upper (strip r) ≡ "ADMIN") ⊎ (plain.upper (strip r) ≡ "STANDARD"))
tier_for_access_role-writes_example = tier_for_access_role-writes (some "STANDARD") standard_writes
