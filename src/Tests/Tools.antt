-- ===== src/Tests/Tools.antt =====
-- The tools' theorems at a concrete confirmation.
use gads_write_mcp.Base.{◌≡◌, refl, false, ok, some, Option}
use gads_write_mcp.Python.Value.{field, end, str}
use gads_write_mcp.Safety.Guard.{GuardDecision, GuardRequest}
use gads_write_mcp.Safety.Guard.Order.{IsPermitted}
use gads_write_mcp.Safety.Plans.{Plan, plan_already_used, mark_consumed}
use gads_write_mcp.Safety.Spend.{total_increase_units}
use gads_write_mcp.Tools.Confirm.{
  State, World, refused, declined, MutationRequest, Applied, done, stopped, sent, Ready,
  not_claimable, OperationChecks, applying, gating, confirm_and_apply,
}
use gads_write_mcp.Base.Dict.{lookup, insert}
use gads_write_mcp.Python.Text.{normalised, strip, lstrip, rstrip, is_space, stripped_text, one_of}
use gads_write_mcp.Tools.Confirm.{
  prepare, find_plan, find_payload, find_checks, reread, ask_gate, gate_request, decimal_or_none,
  require_human_approval, claim_plan, carry_out, record_answer,
}
use gads_write_mcp.Safety.Plans.{peek, checked_locked, check_plan, consume}
use gads_write_mcp.Safety.Guard.{
  check, decide, by_identity, by_tier, by_account, by_operation, by_validation, by_limits,
  write_audit, decision_record, record_application, application_record,
}
use gads_write_mcp.Safety.Policy.{for_account, blocks_operation, evaluate_operation}
use gads_write_mcp.Safety.Audit.{
  redact, redact_items, redact_fields, is_sensitive, contains, take_text,
}
use gads_write_mcp.Safety.Audit.Log.{
  redacted_arguments, append, is_prunable, roll_over, prune, prune_files, to_fields,
}
use gads_write_mcp.Tools.Registry.{spec_for, is_registered}
use gads_write_mcp.Tools.Confirm.Order.{IsPrepared, IsGateOf}
use gads_write_mcp.Tools.Confirm.Reread.{IsReread}
use gads_write_mcp.Tools.Confirm.Steady.{IsSteady}
use gads_write_mcp.Tools.Confirm.Sent.{IsRequestOf, confirm-sent, confirm-IsPermitted, confirm-once}
use gads_write_mcp.Tools.Confirm.Effects.{confirm-stopped_store, confirm-total, is_applied}
use gads_write_mcp.Tests.{plain, describe, plan, state, world, broken_world, result, disk}

abbrev after : State
after = (confirm_and_apply describe world "p1" state).1

abbrev request : MutationRequest
request = record {
  customer_id = "12";
  operation = "pause_campaign";
  payload = field "campaign_id" (str "7") end;
  validate_only = false;
}

abbrev answer : Applied
answer = done (mark_consumed "noon" plan) result

applied_example : confirm_and_apply describe world "p1" state ≡ (sent request answer, after)
unfolding confirm_and_apply prepare find_plan peek checked_locked check_plan lookup normalised strip
    lstrip rstrip is_space find_payload stripped_text find_checks reread ask_gate gate_request
    decimal_or_none check decide by_identity by_tier by_account by_operation by_validation by_limits
    spec_for is_registered for_account blocks_operation one_of evaluate_operation write_audit
    decision_record redacted_arguments append roll_over prune prune_files to_fields insert
    require_human_approval claim_plan consume carry_out record_answer record_application
    application_record redact redact_items redact_fields is_sensitive contains take_text
applied_example = refl

steady : IsSteady describe world (strip "p1")
unfolding strip lstrip rstrip is_space
steady a s p h unused = h

confirm-sent_example :
    (r : Ready) × (mid : State) × (p : IsPrepared describe world (strip "p1") state r mid) × (lookup
        (strip "p1")
        state.store.plans
      ≡ some p.plan)
    × (lookup (strip "p1") p.before_claim.store.plans ≡ some p.plan)
    × IsRequestOf describe world p.plan request
    × (after.store ≡ (world.meanwhile applying mid).store)
confirm-sent_example =
    confirm-sent describe world "p1" state after request answer applied_example steady

confirm-IsPermitted_example :
    (p : Plan) × (lookup (strip "p1") state.store.plans ≡ some p)
    × IsRequestOf describe world p request
    × ((checks : OperationChecks (Unit {0})) × (world.operations p.tool ≡ some checks)
        × ((current : Option (Unit {0})) × (read : State) × IsReread describe world checks.reads
              checks p state current read
            × ((g : GuardRequest) × IsGateOf describe world checks p current request.payload g
                × ((d : GuardDecision) × IsPermitted world.gate_services g
                      (world.meanwhile gating read).log
                      d.tier
                      d.policy))))
confirm-IsPermitted_example =
    confirm-IsPermitted describe world "p1" state after request answer applied_example steady

confirm-once_example :
    confirm_and_apply describe world "p1" after ≡ (stopped (not_claimable plan_already_used), after)
confirm-once_example =
    confirm-once describe world world "p1" state after request answer applied_example (λ s. refl)
      refl

-- A person who declines.
abbrev declining : World (Unit {0})
declining = record world { elicit = λ preview. ok refused }

abbrev kept : State
kept = (confirm_and_apply describe declining "p1" state).1

declined_example : confirm_and_apply describe declining "p1" state ≡ (stopped declined, kept)
unfolding confirm_and_apply prepare find_plan peek checked_locked check_plan lookup normalised strip
    lstrip rstrip is_space find_payload stripped_text find_checks reread ask_gate gate_request
    decimal_or_none check decide by_identity by_tier by_account by_operation by_validation by_limits
    spec_for is_registered for_account blocks_operation one_of evaluate_operation write_audit
    decision_record redacted_arguments append roll_over prune prune_files to_fields insert
    require_human_approval claim_plan consume carry_out record_answer record_application
    application_record redact redact_items redact_fields is_sensitive contains take_text
declined_example = refl

confirm-stopped_store_example : kept.store ≡ state.store
confirm-stopped_store_example =
    confirm-stopped_store describe declining "p1" state kept declined (λ a s. refl) declined_example

not_applied_example : is_applied (confirm_and_apply describe broken_world "p1" state).0 ≡ false
unfolding confirm_and_apply prepare find_plan peek checked_locked check_plan lookup normalised strip
    lstrip rstrip is_space find_payload stripped_text find_checks reread ask_gate gate_request
    decimal_or_none check decide by_identity by_tier by_account by_operation by_validation by_limits
    spec_for is_registered for_account blocks_operation one_of evaluate_operation write_audit
    decision_record redacted_arguments append roll_over prune prune_files to_fields insert
    require_human_approval claim_plan consume carry_out record_answer record_application
    application_record redact redact_items redact_fields is_sensitive contains take_text
not_applied_example = refl

recent : is_prunable disk "2026-02-03" ≡ false
recent = refl

confirm-total_example :
    total_increase_units "ann@example.com" "2026-02-03"
      (confirm_and_apply describe broken_world "p1" state).1.log
    ≡ total_increase_units "ann@example.com" "2026-02-03" state.log
confirm-total_example =
    confirm-total describe broken_world "ann@example.com" "2026-02-03" "p1" state (λ a s. refl)
      recent recent recent not_applied_example
