-- ===== src/Tools/Confirm/Order.antt =====
-- What a request that reaches the executor has behind it.
use gads_write_mcp.Base.{String, ◌≡◌, refl, sym, ◌∙◌, ◌≢◌, Option, some, ok, false}
use mathlib.Core.Option.{map as map_option}
use mathlib.Core.Path.{subst}
use gads_write_mcp.Python.Text.{Runtime}
use gads_write_mcp.Python.Value.{Fields}
use gads_write_mcp.Safety.Guard.{Denial, GuardRequest}
use gads_write_mcp.Safety.Guard.Audited.{check-answer}
use gads_write_mcp.Safety.Guard.Order.{IsPermitted, decide_sound}
use gads_write_mcp.Safety.Plans.{Plan, peek, consume}
use gads_write_mcp.Tools.Confirm.{
  State, OperationChecks, gating, World, Ready, payload_of, operation_of, find_plan, find_payload,
  find_checks, ask_gate, reread, gate_request, require_human_approval, claim_plan, ready, prepare,
}
use gads_write_mcp.Tools.Confirm.Passed.{
  bind-ok, pure-ok, find_plan-ok, find_payload-ok, find_checks-ok, ask_gate-ok, IsApproved,
  require_human_approval-ok, claim_plan-ok,
}
use gads_write_mcp.Tools.Confirm.Reread.{IsReread, reread-ok}

module _ {Current : Type 0} ⦃py : Runtime⦄ (describe : Denial → String) (w : World Current) where
  -- The call of the gate is about the plan, made by its caller: with the validation of its arguments,
  -- and with the re-check of the payload against what was read, where the tool has one.
  pub record IsGateOf (checks : OperationChecks Current) (plan : Plan) (current : Option Current)
      (payload : Fields) (g : GuardRequest) : Type 0 where
    pub caller : g.caller ≡ some w.caller
    pub tool : g.tool ≡ plan.tool
    pub account : g.customer_id ≡ some plan.customer_id
    pub arguments : g.arguments ≡ plan.arguments
    pub validates : g.validate ≡ some (λ policy. checks.validate policy plan.arguments)
    pub evaluates :
        g.evaluate
        ≡ map_option
            (λ recheck policy tier spent. recheck policy tier plan.arguments current payload spent)
            checks.recheck
    pub logged_as : g.plan_id ≡ some plan.plan_id
    pub applies : g.dry_run ≡ false

  gate_request-IsGateOf :
      (checks : OperationChecks Current) (plan : Plan) (current : Option Current) (payload : Fields)
      → IsGateOf checks plan current payload (gate_request describe w checks plan current payload)
  unfolding gate_request
  gate_request-IsGateOf checks plan current payload = record {
    caller = refl;
    tool = refl;
    account = refl;
    arguments = refl;
    validates = refl;
    evaluates = refl;
    logged_as = refl;
    applies = refl;
  }

  -- What has been established when a plan is ready to be sent, state after state: the caller's own
  -- plan was found, the table has its checks, the entity was read again, the gate has let the change
  -- through with what was read, a person has accepted it if that is asked for, and the claim has
  -- succeeded.
  pub record IsPrepared (plan_id : String) (st : State) (r : Ready) (after : State) : Type 0 where
    pub plan : Plan
    pub peeked : peek plan_id w.caller.email w.peek_time st.store ≡ ok plan
    pub checks : OperationChecks Current
    pub has_checks : w.operations plan.tool ≡ some checks
    pub has_operation : operation_of plan ≢ ""
    pub has_payload : payload_of plan ≡ some r.payload
    pub same_operation : r.operation ≡ operation_of plan
    pub current : Option Current
    pub before_gate : State
    pub was_read : IsReread describe w checks.reads checks plan st current before_gate
    pub request : GuardRequest
    pub asks : IsGateOf checks plan current r.payload request
    pub permitted :
        IsPermitted w.gate_services request
          (w.meanwhile gating before_gate).log
          r.decision.tier
          r.decision.policy
    pub gated : State
    pub gated_store : gated.store ≡ (w.meanwhile gating before_gate).store
    pub before_claim : State
    pub approved : IsApproved describe w plan gated before_claim
    pub claimed :
        consume plan_id w.caller.email w.consume_time w.wall before_claim.store
        ≡ (ok r.plan, after.store)

  pub prepare-IsPrepared :
      (plan_id : String) (st st' : State) (r : Ready)
      → prepare describe w plan_id st ≡ (ok r, st')
      → IsPrepared plan_id st r st'
  unfolding prepare ready
  prepare-IsPrepared plan_id st st' r e =
      bind-ok (find_plan describe w plan_id) _ st st' r e (λ plan st_1 found e_1.
        bind-ok (find_payload describe w plan) _ st_1 st' r e_1 (λ payload st_2 has_payload e_2.
          bind-ok (find_checks describe w plan) _ st_2 st' r e_2 (λ checks st_3 has_checks e_3.
            bind-ok (reread describe w checks plan) _ st_3 st' r e_3 (λ current st_4 was_read e_4.
              let q = gate_request describe w checks plan current payload in
              bind-ok (ask_gate describe w w.gate_services gating q) _ st_4 st' r e_4
                (λ d st_5 judged e_5.
                  bind-ok (require_human_approval describe w plan) _ st_5 st' r e_5
                    (λ u st_6 approved e_6.
                      bind-ok (claim_plan describe w plan_id) _ st_6 st' r e_6
                        (λ plan' st_7 taken e_7.
                          let (same, after) =
                            pure-ok (ready describe w checks plan current payload d plan') r st_7
                              st' e_7 in
                          let (peeked, s_1) = find_plan-ok describe w plan_id st st_1 plan found in
                          let (named, payload_found, s_2) =
                            find_payload-ok describe w plan st_1 st_2 payload has_payload in
                          let (listed, s_3) =
                            find_checks-ok describe w plan st_2 st_3 checks has_checks in
                          let (through, allowed, kept) =
                            ask_gate-ok describe w w.gate_services gating q st_4 st_5 d judged in
                          rw (same, after)
                            (record {
                              plan = plan;
                              peeked = peeked;
                              checks = checks;
                              has_checks = listed;
                              has_operation = named;
                              has_payload = payload_found;
                              same_operation = refl;
                              current = current;
                              before_gate = st_4;
                              was_read =
                                  subst
                                    (λ s.
                                      IsReread describe w checks.reads checks plan s current st_4)
                                    (s_3 ∙ s_2 ∙ s_1)
                                    (reread-ok describe w checks plan st_3 st_4 current was_read);
                              request = q;
                              asks = gate_request-IsGateOf checks plan current payload;
                              permitted =
                                  decide_sound w.gate_services q (w.meanwhile gating st_4).log d
                                    (sym (
                                        check-answer describe w.gate_services q
                                          (w.meanwhile gating st_4).log)
                                      ∙ through)
                                    allowed;
                              gated = st_5;
                              gated_store = kept;
                              before_claim = st_6;
                              approved =
                                  require_human_approval-ok describe w plan st_5 st_6 u approved;
                              claimed = claim_plan-ok describe w plan_id st_6 st_7 plan' taken;
                            }))))))))
