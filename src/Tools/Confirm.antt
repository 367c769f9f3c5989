-- ===== src/Tools/Confirm.antt =====
-- tools/confirm.py: the one tool that applies a change, and read_current of tools/operations.py. A
-- call of confirm_and_apply gives way to other calls wherever it awaits; `meanwhile` is what those
-- do to the plans and the log. The table of checks, the reader of the account, the executor and the
-- person asked are parameters.
mod Steps
mod Passed
pub mod Reread
pub mod Order
pub mod Steady
pub mod Keeps
pub mod Effects
pub mod Sent
pub use Steps.*
use gads_write_mcp.Base.{
  ℕ, String, Bool, true, false, not, ◌||◌, Option, none, some, List, [], ◌∷◌, map, if◌then◌else◌,
  Result, ok, err, is_some,
}
use mathlib.Core.Option.{map as map_option}
use gads_write_mcp.Base.Int.{ℤ}
use gads_write_mcp.Auth.Identity.{Caller}
use gads_write_mcp.Python.Decimal.{Decimal, Number, finite}
use gads_write_mcp.Python.Value.{Value, str, dict, Arguments, Fields, get, value_or}
use gads_write_mcp.Python.Text.{Runtime, strip, stripped_text, is_empty_text}
use gads_write_mcp.Safety.Guard.{
  Denial, GuardDecision, Services, GuardRequest, check, record_application,
}
use gads_write_mcp.Safety.Units.{Raised}
use gads_write_mcp.Safety.Plans.{Plan, PlanStore, PlanError, peek, consume}
use gads_write_mcp.Safety.Audit.Log.{AuditLog, OsError}

abbrev pub with_log : AuditLog → State → State
with_log log st = record st { log = log }

module _ ⦃py : Runtime⦄ where
  -- `_decimal_or_none`
  unfoldable pub decimal_or_none : Option String → Option Number
  decimal_or_none none = none
  decimal_or_none (some s) = if is_empty_text s then none else py.parse_decimal s

  -- `str(plan.metadata.get("operation") or "").strip()`
  abbrev pub operation_of : Plan → String
  unfolding stripped_text
  operation_of plan = stripped_text (value_or (get plan.metadata "operation") (str ""))

  -- The id of an entity among the arguments: `str(arguments.get(name) or "").strip()`.
  abbrev pub id_of : Arguments → String → String
  unfolding stripped_text
  id_of arguments name = stripped_text (value_or (get arguments name) (str ""))

abbrev payload_in : Value → Option Fields
payload_in (dict fs) = some fs
payload_in v = none

abbrev pub payload_of : Plan → Option Fields
payload_of plan = payload_in (get plan.metadata "payload")

module _ {Current : Type 0} ⦃py : Runtime⦄ where
  abbrev read_entity :
      Reader Current
      → ReadKind
      → (customer_id entity_id ad_group_id : String) → Result String (Option Current)
  read_entity reader no_read customer_id entity_id ad_group_id = ok none
  read_entity reader campaign customer_id entity_id ad_group_id =
      reader.campaign_by_id customer_id entity_id
  read_entity reader keyword customer_id entity_id ad_group_id =
      if is_empty_text ad_group_id
      then ok none
      else reader.keyword_by_id customer_id ad_group_id entity_id
  read_entity reader ad_group customer_id entity_id ad_group_id =
      reader.ad_group_by_id customer_id entity_id

  unfoldable pub read_current :
      Reader Current
      → OperationChecks Current
      → (customer_id : String) → Arguments
      → Result String (Option Current)
  unfolding id_of
  read_current reader checks customer_id arguments =
      let entity_id = id_of arguments checks.id_argument in
      if is_empty_text entity_id
      then ok none
      else read_entity reader checks.reads customer_id entity_id (id_of arguments "ad_group_id")

module _ {Current : Type 0} ⦃py : Runtime⦄ (describe : Denial → String) (w : World Current) where
  -- 2. Ownership, expiry, single use.
  abbrev peeked : Result PlanError Plan → Step Plan
  peeked (err e) = refuse (not_claimable e)
  peeked (ok plan) = pure plan

  unfoldable pub find_plan : String → Step Plan
  unfolding peek
  find_plan plan_id st = peeked (peek plan_id w.caller.email w.peek_time st.store) st

  abbrev payload_step : Bool → Option Fields → Step Fields
  payload_step no_operation_name none = refuse no_operation
  payload_step true (some fs) = refuse no_operation
  payload_step false (some fs) = pure fs

  unfoldable pub find_payload : Plan → Step Fields
  unfolding operation_of
  find_payload plan = payload_step (is_empty_text (operation_of plan)) (payload_of plan)

  abbrev checks_step : Option (OperationChecks Current) → Step (OperationChecks Current)
  checks_step none = refuse not_rechecked
  checks_step (some checks) = pure checks

  unfoldable pub find_checks : Plan → Step (OperationChecks Current)
  find_checks plan = checks_step (w.operations plan.tool)

  -- A call of the gate, whose refusal stops the confirmation. The gate waits for the tier and the
  -- account only, before it reads the log.
  abbrev through_gate : Result Raised GuardDecision → Step GuardDecision
  through_gate (err e) = refuse (gate_raised e)
  through_gate (ok d) = if d.is_allowed then pure d else refuse (gate_refused d)

  unfoldable pub ask_gate : Services → Await → GuardRequest → Step GuardDecision
  unfolding check
  ask_gate s await r st =
      let before = w.meanwhile await st in
      let (answer, log) = check describe s r before.log in through_gate answer (with_log log before)

  abbrev pub authorise_request : Plan → GuardRequest
  authorise_request plan = record {
    tool = plan.tool;
    caller = some w.caller;
    customer_id = some plan.customer_id;
    arguments = plan.arguments;
    validate = none;
    evaluate = none;
    spend_delta_units = none;
    plan_id = some plan.plan_id;
    dry_run = true;
  }

  abbrev read_step : Result String (Option Current) → Step (Option Current)
  read_step (err exc) st = refuse (unreadable exc) (w.meanwhile reading st)
  read_step (ok current) st = pure current (w.meanwhile reading st)

  -- 3 and 4. Authorise, then read the entity again; a tool with absolute rules pays for neither.
  abbrev reread_kind : ReadKind → OperationChecks Current → Plan → Step (Option Current)
  unfolding ask_gate read_current
  reread_kind no_read checks plan = pure none
  reread_kind _ checks plan =
      ask_gate w.authorise_services authorising (authorise_request plan) >>= λ d.
      read_step (read_current w.reader checks plan.customer_id plan.arguments)

  unfoldable pub reread : OperationChecks Current → Plan → Step (Option Current)
  unfolding reread_kind ask_gate read_current
  reread checks plan = reread_kind checks.reads checks plan

  abbrev delta_from :
      Option (Arguments → Option Current → Option Decimal) → Plan → Option Current → Option Number
  unfolding decimal_or_none
  delta_from none plan current = decimal_or_none plan.spend_delta_units
  delta_from (some f) plan current = map_option finite (f plan.arguments current)

  abbrev pub spend_delta_now : OperationChecks Current → Plan → Option Current → Option Number
  unfolding decimal_or_none
  spend_delta_now checks plan current = delta_from checks.spend_delta plan current

  -- 5. The full gate again, against the tool that drafted the plan.
  unfoldable pub gate_request :
      OperationChecks Current → Plan → Option Current → Fields → GuardRequest
  unfolding decimal_or_none
  gate_request checks plan current payload = record {
    tool = plan.tool;
    caller = some w.caller;
    customer_id = some plan.customer_id;
    arguments = plan.arguments;
    validate = some (λ policy. checks.validate policy plan.arguments);
    evaluate =
        map_option
          (λ recheck policy tier spend_today.
            recheck policy tier plan.arguments current payload spend_today)
          checks.recheck;
    spend_delta_units = spend_delta_now checks plan current;
    plan_id = some plan.plan_id;
    dry_run = false;
  }

  -- 6. A person, who has to accept.
  abbrev answer_step : Result String Answer → Step (Unit {0})
  answer_step (err exc) = refuse cannot_ask
  answer_step (ok accepted) = pure tt
  answer_step (ok _) = refuse declined

  unfoldable pub require_human_approval : Plan → Step (Unit {0})
  require_human_approval plan st =
      if w.require_human_confirmation
      then answer_step (w.elicit plan.preview) (w.meanwhile asking st)
      else (ok tt, st)

  -- 7. The claim, before anything is sent.
  abbrev claimed : State → Result PlanError Plan × PlanStore → Result Refusal Plan × State
  claimed st (err e, store) = (err (not_claimable e), record st { store = store })
  claimed st (ok plan, store) = (ok plan, record st { store = store })

  unfoldable pub claim_plan : String → Step Plan
  unfolding consume
  claim_plan plan_id st = claimed st (consume plan_id w.caller.email w.consume_time w.wall st.store)

  abbrev pub ready :
      OperationChecks Current → Plan → Option Current → Fields → GuardDecision → Plan → Ready
  unfolding decimal_or_none operation_of
  ready checks plan current payload decision plan' = record {
    plan = plan';
    operation = operation_of plan;
    payload = payload;
    decision = decision;
    spend_delta = spend_delta_now checks plan current;
  }

  -- Everything that comes before the request is sent.
  unfoldable pub prepare : String → Step Ready
  unfolding find_plan find_payload find_checks reread ask_gate require_human_approval claim_plan
  prepare plan_id = do
    plan ← find_plan plan_id
    payload ← find_payload plan
    checks ← find_checks plan
    current ← reread checks plan
    decision ← ask_gate w.gate_services gating (gate_request checks plan current payload)
    approval ← require_human_approval plan
    plan' ← claim_plan plan_id
    pure (ready checks plan current payload decision plan')

  abbrev pub request_of : Ready → MutationRequest
  request_of r = record {
    customer_id = r.plan.customer_id;
    operation = r.operation;
    payload = r.payload;
    validate_only = false;
  }

  -- A log that cannot be written raises, whatever the executor answered.
  abbrev reported : Applied → Result OsError (Unit {0}) × AuditLog → Applied × AuditLog
  reported answer (err e, log) = (unlogged, log)
  reported answer (ok u, log) = (answer, log)

  abbrev recorded :
      Ready
      → Applied
      → List String
      → Option Number
      → Option Fields
      → Option String
      → AuditLog
      → Applied × AuditLog
  unfolding record_application
  recorded r answer names spend_delta result error log = reported answer (
      record_application w.apply_services r.decision r.plan.arguments (some r.plan.plan_id) names
        spend_delta result error false log)

  -- `result.error or "the mutation reported failure"`
  abbrev failure_text : Option String → String
  failure_text none = "the mutation reported failure"
  failure_text (some e) = if is_empty_text e then "the mutation reported failure" else e

  -- Only a success carries the spend.
  abbrev by_success : Ready → Bool → MutationResult → AuditLog → Applied × AuditLog
  unfolding record_application
  by_success r false result log =
      recorded r (failed result) result.resource_names none none (some (failure_text result.error))
        log
  by_success r true result log =
      recorded r (done r.plan result) result.resource_names r.spend_delta (some result.details) none
        log

  unfoldable pub record_answer :
      Ready → Result String MutationResult → AuditLog → Applied × AuditLog
  unfolding record_application
  record_answer r (err exc) log = recorded r (raised exc) [] none none (some exc) log
  record_answer r (ok result) log = by_success r result.success result log

  -- 7 and 8. Send the request and record what became of it.
  unfoldable pub carry_out : Ready → State → Outcome × State
  unfolding record_answer
  carry_out r st =
      let after = w.meanwhile applying st in
      let (answer, log) = record_answer r (w.apply (request_of r)) after.log in
      (sent (request_of r) answer, with_log log after)

  abbrev pub finish : Result Refusal Ready × State → Outcome × State
  unfolding carry_out
  finish (err r, st) = (stopped r, st)
  finish (ok r, st) = carry_out r st

  unfoldable pub confirm_and_apply : String → State → Outcome × State
  unfolding finish prepare carry_out
  confirm_and_apply plan_id st = finish (prepare (strip plan_id) st)
