-- ===== src/Tools/Confirm/Keeps.antt =====
-- Which aspects of the state the steps of a confirmation leave as they are: the frame of the
-- theorems on what a confirmation leaves behind.
use gads_write_mcp.Base.{
  String, ◌≡◌, refl, sym, ap, ◌∙◌, inl, inr, Bool, true, false, Option, none, some, Result, ok, err,
  Bool-cases,
}
use gads_write_mcp.Python.Text.{Runtime, is_empty_text}
use gads_write_mcp.Python.Value.{Fields}
use gads_write_mcp.Safety.Guard.{Denial, GuardDecision, Services, GuardRequest, check}
use gads_write_mcp.Safety.Plans.{Plan, PlanError, peek}
use gads_write_mcp.Safety.Units.{Raised}
use gads_write_mcp.Tools.Confirm.{
  State, Step, Refusal, OperationChecks, ReadKind, no_read, campaign, ad_group, keyword, ◌>>=◌,
  continue, pure, Answer, accepted, refused, cancelled, Await, authorising, reading, asking, gating,
  World, with_log, payload_of, operation_of, read_current, find_plan, peeked, find_payload,
  payload_step, find_checks, checks_step, ask_gate, through_gate, reread, reread_kind, read_step,
  authorise_request, gate_request, require_human_approval, answer_step, claim_plan, ready, prepare,
}

-- A step that leaves one aspect of the state as it is, whatever it answers.
abbrev pub Keeps : {A X : Type 0} → (State → X) → Step A → Type 0
Keeps f step = (st : State) → f (step st).1 ≡ f st

Keeps-bind :
    {A B X : Type 0} (f : State → X) (step : Step A) (next : A → Step B)
    → Keeps f step
    → ((a : A) → Keeps f (next a))
    → Keeps f (step >>= next)
Keeps-bind f step next h k st = after (step st) (h st)
  where
    after : (r : Result Refusal _ × State) → f r.1 ≡ f st → f (continue next r).1 ≡ f st
    after (err r, st') e = e
    after (ok a, st') e = k a st' ∙ e

-- A step that does so where it refuses.
abbrev pub KeepsRefusing : {A X : Type 0} → (State → X) → Step A → Type 0
KeepsRefusing f step = (st st' : State) (r : Refusal) → step st ≡ (err r, st') → f st' ≡ f st

KeepsRefusing-bind :
    {A B X : Type 0} (f : State → X) (step : Step A) (next : A → Step B)
    → Keeps f step
    → ((a : A) → KeepsRefusing f (next a))
    → KeepsRefusing f (step >>= next)
KeepsRefusing-bind f step next h k st st' r e = after (step st) (h st) e
  where
    after :
        (x : Result Refusal _ × State)
        → f x.1 ≡ f st
        → continue next x ≡ (err r, st')
        → f st' ≡ f st
    after (err r', mid) kept e = ap (λ y. f y.1) (sym e) ∙ kept
    after (ok a, mid) kept e = k a mid st' r e ∙ kept

err_pair :
    {A B : Type 0} (r r' : Refusal) (mid st' : State)
    → ◌≡◌ {A = Result Refusal B × State} (err r', mid) (err r, st')
    → ◌≡◌ {A = Result Refusal A × State} (err r', mid) (err r, st')
err_pair r r' mid st' e = cc

KeepsRefusing-pure :
    {A B X : Type 0} (f : State → X) (step : Step A) (g : A → B)
    → KeepsRefusing f step
    → KeepsRefusing f (step >>= λ a. pure (g a))
KeepsRefusing-pure f step g h st st' r e = last (step st) refl e
  where
    last :
        (x : Result Refusal _ × State)
        → step st ≡ x
        → continue (λ a. pure (g a)) x ≡ (err r, st')
        → f st' ≡ f st
    last (err r', mid) same e = h st st' r (same ∙ err_pair r r' mid st' e)
    last (ok a, mid) same e = cc

module _ {Current X : Type 0} ⦃py : Runtime⦄ (describe : Denial → String) (w : World Current)
    (f : State → X) (idle : (a : Await) (st : State) → f (w.meanwhile a st) ≡ f st) where
  find_plan-Keeps : (plan_id : String) → Keeps f (find_plan describe w plan_id)
  unfolding find_plan
  find_plan-Keeps plan_id st = peeked-Keeps (peek plan_id w.caller.email w.peek_time st.store)
    where
      peeked-Keeps : (r : Result PlanError Plan) → f (peeked describe w r st).1 ≡ f st
      peeked-Keeps (err e) = refl
      peeked-Keeps (ok plan) = refl

  find_payload-Keeps : (plan : Plan) → Keeps f (find_payload describe w plan)
  unfolding find_payload
  find_payload-Keeps plan st = payload-Keeps (is_empty_text (operation_of plan)) (payload_of plan)
    where
      payload-Keeps : (b : Bool) (o : Option Fields) → f (payload_step describe w b o st).1 ≡ f st
      payload-Keeps b none = refl
      payload-Keeps true (some fs) = refl
      payload-Keeps false (some fs) = refl

  find_checks-Keeps : (plan : Plan) → Keeps f (find_checks describe w plan)
  unfolding find_checks
  find_checks-Keeps plan st = checks-Keeps (w.operations plan.tool)
    where
      checks-Keeps :
          (o : Option (OperationChecks Current)) → f (checks_step describe w o st).1 ≡ f st
      checks-Keeps none = refl
      checks-Keeps (some checks) = refl

  through_gate-Keeps :
      (r : Result Raised GuardDecision) (st : State) → f (through_gate describe w r st).1 ≡ f st
  through_gate-Keeps (err e) st = refl
  through_gate-Keeps (ok d) st = elim (Bool-cases d.is_allowed) [
    | inl fine ↦ rw fine
    | inr off ↦ rw off
  ]

  read_step-Keeps : (r : Result String (Option Current)) → Keeps f (read_step describe w r)
  read_step-Keeps (err exc) st = idle reading st
  read_step-Keeps (ok current) st = idle reading st

  require_human_approval-Keeps : (plan : Plan) → Keeps f (require_human_approval describe w plan)
  unfolding require_human_approval
  require_human_approval-Keeps plan st = elim (Bool-cases w.require_human_confirmation) [
    | inl asked ↦ rw asked (answer-Keeps (w.elicit plan.preview))
    | inr off ↦ rw off
  ]
    where
      answer-Keeps :
          (r : Result String Answer) → f (answer_step describe w r (w.meanwhile asking st)).1 ≡ f st
      answer-Keeps (err exc) = idle asking st
      answer-Keeps (ok accepted) = idle asking st
      answer-Keeps (ok refused) = idle asking st
      answer-Keeps (ok cancelled) = idle asking st

  -- The gate's line does not touch the aspect.
  abbrev pub Gated : Services → Type 0
  Gated s = (r : GuardRequest) (st : State) → f (with_log (check describe s r st.log).1 st) ≡ f st

  ask_gate-Keeps :
      (s : Services) (await : Await) (r : GuardRequest)
      → Gated s
      → Keeps f (ask_gate describe w s await r)
  unfolding ask_gate
  ask_gate-Keeps s await r gate st =
      through_gate-Keeps (check describe s r (w.meanwhile await st).log).0 _
      ∙ gate r (w.meanwhile await st)
      ∙ idle await st

  module _ (gate_1 : Gated w.authorise_services) (gate_2 : Gated w.gate_services) where
    read_and_judge :
        (checks : OperationChecks Current) (plan : Plan)
        → Keeps f (
            ask_gate describe w w.authorise_services authorising (authorise_request describe w plan)
            >>= λ d.
                read_step describe w (read_current w.reader checks plan.customer_id plan.arguments))
    read_and_judge checks plan =
        Keeps-bind f
          (ask_gate describe w w.authorise_services authorising (authorise_request describe w plan))
          (λ d. read_step describe w (read_current w.reader checks plan.customer_id plan.arguments))
          (ask_gate-Keeps w.authorise_services authorising (authorise_request describe w plan)
            gate_1)
          (λ d. read_step-Keeps (read_current w.reader checks plan.customer_id plan.arguments))

    reread_kind-Keeps :
        (k : ReadKind) (checks : OperationChecks Current) (plan : Plan)
        → Keeps f (reread_kind describe w k checks plan)
    unfolding reread_kind
    reread_kind-Keeps no_read checks plan st = refl
    reread_kind-Keeps campaign checks plan st = read_and_judge checks plan st
    reread_kind-Keeps ad_group checks plan st = read_and_judge checks plan st
    reread_kind-Keeps keyword checks plan st = read_and_judge checks plan st

    reread-Keeps :
        (checks : OperationChecks Current) (plan : Plan) → Keeps f (reread describe w checks plan)
    unfolding reread
    reread-Keeps checks plan = reread_kind-Keeps checks.reads checks plan

    -- Everything before the claim keeps it, and so does a preparation that is refused.
    pub prepare-KeepsRefusing :
        (plan_id : String)
        → ((id : String) → KeepsRefusing f (claim_plan describe w id))
        → KeepsRefusing f (prepare describe w plan_id)
    unfolding prepare
    prepare-KeepsRefusing plan_id claim =
        KeepsRefusing-bind f (find_plan describe w plan_id) _ (find_plan-Keeps plan_id) (λ plan.
          KeepsRefusing-bind f (find_payload describe w plan) _ (find_payload-Keeps plan)
            (λ payload.
              KeepsRefusing-bind f (find_checks describe w plan) _ (find_checks-Keeps plan)
                (λ checks.
                  KeepsRefusing-bind f (reread describe w checks plan) _ (reread-Keeps checks plan)
                    (λ current.
                      KeepsRefusing-bind f
                        (ask_gate describe w w.gate_services gating
                          (gate_request describe w checks plan current payload))
                        _
                        (ask_gate-Keeps w.gate_services gating
                          (gate_request describe w checks plan current payload) gate_2)
                        (λ decision.
                          KeepsRefusing-bind f (require_human_approval describe w plan) _
                            (require_human_approval-Keeps plan)
                            (λ u.
                              KeepsRefusing-pure f (claim_plan describe w plan_id)
                                (ready describe w checks plan current payload decision)
                                (claim plan_id)))))))

    pub prepare-Keeps :
        (plan_id : String)
        → ((id : String) → Keeps f (claim_plan describe w id))
        → Keeps f (prepare describe w plan_id)
    unfolding prepare
    prepare-Keeps plan_id claim =
        Keeps-bind f (find_plan describe w plan_id) _ (find_plan-Keeps plan_id) (λ plan.
          Keeps-bind f (find_payload describe w plan) _ (find_payload-Keeps plan) (λ payload.
            Keeps-bind f (find_checks describe w plan) _ (find_checks-Keeps plan) (λ checks.
              Keeps-bind f (reread describe w checks plan) _ (reread-Keeps checks plan) (λ current.
                Keeps-bind f
                  (ask_gate describe w w.gate_services gating
                    (gate_request describe w checks plan current payload))
                  _
                  (ask_gate-Keeps w.gate_services gating
                    (gate_request describe w checks plan current payload) gate_2)
                  (λ decision.
                    Keeps-bind f (require_human_approval describe w plan) _
                      (require_human_approval-Keeps plan)
                      (λ u.
                        Keeps-bind f (claim_plan describe w plan_id) _ (claim plan_id)
                          (λ p st. refl)))))))
