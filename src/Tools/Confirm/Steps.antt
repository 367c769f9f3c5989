-- ===== src/Tools/Confirm/Steps.antt =====
-- The data of a confirmation, and its steps: each may refuse, and each hands on the plans and the
-- log.
use gads_write_mcp.Base.{Result, ok, err}
use gads_write_mcp.Base.{ℕ, Bool}
use gads_write_mcp.Base.Int.{ℤ}
use gads_write_mcp.Auth.Identity.{Caller}
use gads_write_mcp.Auth.Tiers.{Tier}
use gads_write_mcp.Base.{String, Option, List}
use gads_write_mcp.Python.Decimal.{Decimal, Number}
use gads_write_mcp.Python.Value.{Arguments, Fields}
use gads_write_mcp.Safety.Audit.Log.{AuditLog}
use gads_write_mcp.Safety.Guard.{GuardDecision, Services}
use gads_write_mcp.Safety.Plans.{Plan, PlanStore, PlanError}
use gads_write_mcp.Safety.Policy.{Policy, PolicyVerdict}
use gads_write_mcp.Safety.Units.{Raised}
use gads_write_mcp.Safety.Validators.{Problem}

-- What a confirmation reads and writes: the plans, and the log that the ceiling is summed from.
pub record State : Type 0 where
  pub store : PlanStore
  pub log : AuditLog

-- The refusals of confirm_and_apply before anything is sent; `gate_raised` is an exception that the
-- gate lets out.
pub data Refusal : Type 0 where
  not_claimable : PlanError → Refusal
  no_operation not_rechecked cannot_ask declined : Refusal
  gate_refused : GuardDecision → Refusal
  gate_raised : Raised → Refusal
  unreadable : String → Refusal

pub data ReadKind : Type 0 where
  no_read campaign ad_group keyword : ReadKind

-- What the gate needs to judge one write tool. `Current` is the state of an entity of the account.
pub record OperationChecks (Current : Type 0) : Type 0 where
  pub validate : Policy → Arguments → Result Raised (List Problem)
  pub recheck :
      Option (
        Policy → Tier → Arguments → Option Current → Fields → Decimal → Result Raised PolicyVerdict)
  pub reads : ReadKind
  pub id_argument : String
  pub spend_delta : Option (Arguments → Option Current → Option Decimal)

-- The answers of a client that can ask a person.
pub data Answer : Type 0 where
  accepted refused cancelled : Answer

pub record MutationRequest : Type 0 where
  pub customer_id : String
  pub operation : String
  pub payload : Fields
  pub validate_only : Bool

pub record MutationResult : Type 0 where
  pub success : Bool
  pub resource_names : List String
  pub details : Fields
  pub error : Option String

-- What became of a request that was sent: the executor raised, it reported failure, the change went
-- through, or the log could not be written.
pub data Applied : Type 0 where
  raised : String → Applied
  failed : MutationResult → Applied
  done : Plan → MutationResult → Applied
  unlogged : Applied

pub data Outcome : Type 0 where
  stopped : Refusal → Outcome
  sent : MutationRequest → Applied → Outcome

-- The places where a call waits.
pub data Await : Type 0 where
  authorising reading gating asking applying : Await

pub record Reader (Current : Type 0) : Type 0 where
  pub campaign_by_id : (customer_id campaign_id : String) → Result String (Option Current)
  pub ad_group_by_id : (customer_id ad_group_id : String) → Result String (Option Current)
  pub keyword_by_id :
      (customer_id ad_group_id criterion_id : String) → Result String (Option Current)

-- What one call is given: the arguments of register_confirm_tool, and what clocks, collaborators
-- and other calls do while it runs.
pub record World (Current : Type 0) : Type 0 where
  pub operations : String → Option (OperationChecks Current)
  pub reader : Reader Current
  pub apply : MutationRequest → Result String MutationResult
  pub require_human_confirmation : Bool
  pub elicit : String → Result String Answer
  pub caller : Caller
  pub authorise_services : Services
  pub gate_services : Services
  pub apply_services : Services
  pub peek_time : ℕ
  pub consume_time : ℕ
  pub wall : ℤ → String
  pub meanwhile : Await → State → State

-- What has been checked and claimed, ready to be sent.
pub record Ready : Type 0 where
  pub plan : Plan
  pub operation : String
  pub payload : Fields
  pub decision : GuardDecision
  pub spend_delta : Option Number

abbrev pub Step : Type 0 → Type 0
Step A = State → Result Refusal A × State

abbrev pub refuse : {A : Type 0} → Refusal → Step A
refuse r st = (err r, st)

abbrev pub pure : {A : Type 0} → A → Step A
pure a st = (ok a, st)

abbrev pub continue :
    {A B : Type 0} → (A → Step B) → Result Refusal A × State → Result Refusal B × State
continue next (err r, st) = (err r, st)
continue next (ok a, st) = next a st

infixl 2 ◌>>=◌
abbrev pub ◌>>=◌ : {A B : Type 0} → Step A → (A → Step B) → Step B
(step >>= next) st = continue next (step st)
