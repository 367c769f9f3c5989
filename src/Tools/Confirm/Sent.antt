-- ===== src/Tools/Confirm/Sent.antt =====
-- The promises of confirm_and_apply about a request that it sends.
use gads_write_mcp.Base.{String, ◌≡◌, refl, sym, ap, ◌∙◌, false, Option, some, Result, ok, err}
use mathlib.Core.Path.{subst}
use text.Mathlib.TextPositions.{eq_refl}
use gads_write_mcp.Base.Int.{pos}
use gads_write_mcp.Base.Dict.{lookup}
use gads_write_mcp.Python.Text.{Runtime, strip, normalised}
use gads_write_mcp.Safety.Guard.{Denial, GuardDecision, GuardRequest}
use gads_write_mcp.Safety.Guard.Order.{IsPermitted}
use gads_write_mcp.Safety.Plans.{
  Plan, plan_already_used, peek, checked_locked, check_plan, mark_consumed,
}
use gads_write_mcp.Safety.Plans.Checks.{consume-marked}
use gads_write_mcp.Tools.Confirm.{
  State, Refusal, OperationChecks, not_claimable, MutationRequest, Applied, stopped, sent, gating,
  applying, World, Ready, find_plan, payload_of, operation_of, prepare, request_of, carry_out,
  finish, confirm_and_apply,
}
use gads_write_mcp.Tools.Confirm.Reread.{IsReread}
use gads_write_mcp.Tools.Confirm.Order.{IsGateOf, IsPrepared, prepare-IsPrepared}
use gads_write_mcp.Tools.Confirm.Steady.{some_inj, IsSteady, same_plan}

module _ {Current : Type 0} ⦃py : Runtime⦄ (describe : Denial → String) (w : World Current) where
  finish-sent :
      {P : Type 0} (x : Result Refusal Ready × State) (q : MutationRequest) (a : Applied)
      (st' : State)
      → finish describe w x ≡ (sent q a, st')
      → ((r : Ready) (mid : State)
          → x ≡ (ok r, mid)
          → q ≡ request_of describe w r
          → st'.store ≡ (w.meanwhile applying mid).store
          → P)
      → P
  unfolding carry_out
  finish-sent (err r, mid) q a st' e goal = cc
  finish-sent (ok r, mid) q a st' e goal =
      goal r mid refl (request_inj (ap (λ y. y.0) e)) (ap (λ y. y.1.store) (sym e))
    where
      request_inj : {q' : MutationRequest} {a' : Applied} → sent q' a' ≡ sent q a → q ≡ q'
      request_inj h = cc

  -- The request is the plan's: its account, operation and payload.
  pub record IsRequestOf (plan : Plan) (q : MutationRequest) : Type 0 where
    pub account : q.customer_id ≡ plan.customer_id
    pub operation : q.operation ≡ operation_of plan
    pub payload : payload_of plan ≡ some q.payload
    pub real : q.validate_only ≡ false

  prepared-IsRequestOf :
      (plan_id : String) (st after : State) (r : Ready) (q : MutationRequest)
      → q ≡ request_of describe w r
      → (p : IsPrepared describe w plan_id st r after)
      → r.plan ≡ mark_consumed (w.wall (pos 0)) p.plan
      → IsRequestOf p.plan q
  prepared-IsRequestOf plan_id st after r q same p marked = record {
    account =
        ap (λ (x : MutationRequest). x.customer_id) same ∙ ap (λ (x : Plan). x.customer_id) marked;
    operation = ap (λ (x : MutationRequest). x.operation) same ∙ p.same_operation;
    payload = p.has_payload ∙ ap (λ (x : MutationRequest). some x.payload) (sym same);
    real = ap (λ (x : MutationRequest). x.validate_only) same;
  }

  -- Nothing reaches the executor unless everything before it has been established, state after state:
  -- the plan that stood in the store was found for its caller and checked, the entity read again where
  -- the tool's checks read one, the gate passed with that, a person asked where that is required, and that
  -- very plan, still unused, was claimed; the request is that plan's. What other calls leave to claim
  -- under the plan's id must have been there before them.
  pub confirm-sent :
      (plan_id : String) (st st' : State) (q : MutationRequest) (a : Applied)
      → confirm_and_apply describe w plan_id st ≡ (sent q a, st')
      → IsSteady describe w (strip plan_id)
      → (r : Ready) × (mid : State) × (p : IsPrepared describe w (strip plan_id) st r mid) × (lookup
            (strip plan_id)
            st.store.plans
          ≡ some p.plan)
        × (lookup (strip plan_id) p.before_claim.store.plans ≡ some p.plan)
        × IsRequestOf p.plan q
        × (st'.store ≡ (w.meanwhile applying mid).store)
  unfolding confirm_and_apply
  confirm-sent plan_id st st' q a e steady =
      finish-sent (prepare describe w (strip plan_id) st) q a st' e (λ r mid prepared same kept.
        let p = prepare-IsPrepared describe w (strip plan_id) st mid r prepared in
        let (found, claimed, marked) = same_plan describe w (strip plan_id) st mid r steady p in
        (
          r,
          mid,
          p,
          found,
          claimed,
          prepared-IsRequestOf (strip plan_id) st mid r q same p marked,
          kept,
        ))

  -- A request that is sent has passed every check of the gate at the moment of the confirmation: the
  -- kill switch, the caller's tier, the policy, the validation of the plan's arguments and the re-check
  -- of the request's payload, against the entity as it was read on the way where the tool's checks read one,
  -- and the limits as they are then. The plan is the one that stood in the store under that id, and the request is for its
  -- account. What other calls leave to claim under the id must have been there before them.
  pub confirm-IsPermitted :
      (plan_id : String) (st st' : State) (q : MutationRequest) (a : Applied)
      → confirm_and_apply describe w plan_id st ≡ (sent q a, st')
      → IsSteady describe w (strip plan_id)
      → (plan : Plan) × (lookup (strip plan_id) st.store.plans ≡ some plan)
        × IsRequestOf plan q
        × ((checks : OperationChecks Current) × (w.operations plan.tool ≡ some checks)
            × ((current : Option Current) × (read : State) × IsReread describe w checks.reads checks
                  plan st current read
                × ((g : GuardRequest) × IsGateOf describe w checks plan current q.payload g
                    × ((d : GuardDecision) × IsPermitted w.gate_services g
                          (w.meanwhile gating read).log
                          d.tier
                          d.policy))))
  confirm-IsPermitted plan_id st st' q a e steady =
      let (r, mid, p, found, claimed, request, kept) = confirm-sent plan_id st st' q a e steady in
      let same : r.payload ≡ q.payload = some_inj (sym p.has_payload ∙ request.payload) in
      (
        p.plan,
        found,
        request,
        (
          p.checks,
          p.has_checks,
          (
            p.current,
            p.before_gate,
            p.was_read,
            (
              p.request,
              subst (λ x. IsGateOf describe w p.checks p.plan p.current x p.request) same p.asks,
              (r.decision, p.permitted),
            ),
          ),
        ),
      )

module _ {Current : Type 0} ⦃py : Runtime⦄ (describe : Denial → String) (w w' : World Current) where
  used-refused :
      (plan_id : String) (st : State) (plan : Plan) (at : String)
      → lookup (strip plan_id) st.store.plans ≡ some plan
      → plan.consumed_at ≡ some at
      → plan.owner_email ≡ normalised w'.caller.email
      → confirm_and_apply describe w' plan_id st ≡ (stopped (not_claimable plan_already_used), st)
  unfolding confirm_and_apply prepare find_plan peek checked_locked check_plan
  used-refused plan_id st plan at found used owned =
      rw (found, used, owned, eq_refl (normalised w'.caller.email)) refl

  -- Once a request has been sent for a plan, the same person cannot send another for it: whatever the
  -- first came to, a second confirmation stops with "already used" and changes nothing, provided that
  -- the calls which run while the executor works leave the plans as they are.
  pub confirm-once :
      (plan_id : String) (st st' : State) (q : MutationRequest) (a : Applied)
      → confirm_and_apply describe w plan_id st ≡ (sent q a, st')
      → ((s : State) → (w.meanwhile applying s).store ≡ s.store)
      → normalised w'.caller.email ≡ normalised w.caller.email
      → confirm_and_apply describe w' plan_id st' ≡ (stopped (not_claimable plan_already_used), st')
  unfolding confirm_and_apply
  confirm-once plan_id st st' q a e idle same_person =
      finish-sent describe w (prepare describe w (strip plan_id) st) q a st' e
        (λ r mid prepared same kept.
          let p = prepare-IsPrepared describe w (strip plan_id) st mid r prepared in
          let (at, used, owned, filed) =
            consume-marked (strip plan_id) w.caller.email w.consume_time w.wall p.before_claim.store
              r.plan mid.store p.claimed in
          used-refused plan_id st' r.plan at (rw (kept, idle mid) filed) used
            (owned ∙ sym same_person))
