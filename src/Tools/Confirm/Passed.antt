-- ===== src/Tools/Confirm/Passed.antt =====
-- What each step of a confirmation has established where it answers, and the state it hands on.
use gads_write_mcp.Base.{
  if◌then◌else◌, String, ◌≡◌, refl, sym, ap, ◌∙◌, ◌≢◌, ◌⊎◌, inl, inr, Bool, true, false, some,
  Result, ok, err, Bool-cases, Result-cases, Option-cases, str_eq, eq_iff, arith,
}
use gads_write_mcp.Python.Text.{Runtime}
use gads_write_mcp.Python.Value.{Fields}
use gads_write_mcp.Safety.Guard.{Denial, GuardDecision, Services, GuardRequest, check}
use gads_write_mcp.Safety.Plans.{Plan, PlanStore, PlanError, peek, consume}
use gads_write_mcp.Safety.Units.{Raised}
use gads_write_mcp.Tools.Confirm.{
  State, Step, Refusal, gate_refused, OperationChecks, ◌>>=◌, continue, refuse, pure, accepted,
  refused, cancelled, Await, asking, World, with_log, payload_of, operation_of, find_plan,
  find_payload, find_checks, ask_gate, through_gate, require_human_approval, claim_plan,
  claimed as claimed_as,
}

-- A chain that answers has steps that answer.
pub bind-ok :
    {A B P : Type 0} (step : Step A) (next : A → Step B) (st st' : State) (b : B)
    → (step >>= next) st ≡ (ok b, st')
    → ((a : A) (mid : State) → step st ≡ (ok a, mid) → next a mid ≡ (ok b, st') → P)
    → P
bind-ok {P = P} step next st st' b e goal = after (step st) refl e
  where
    after : (x : Result Refusal _ × State) → step st ≡ x → continue next x ≡ (ok b, st') → P
    after (ok a, mid) h e = goal a mid h e
    after (err r, mid) h e = cc

pub pure-ok :
    {A : Type 0} (a b : A) (mid st' : State) → pure a mid ≡ (ok b, st') → (b ≡ a) × (st' ≡ mid)
pure-ok a b mid st' e = (cc, cc)

module _ {Current : Type 0} ⦃py : Runtime⦄ (describe : Denial → String) (w : World Current) where
  pub find_plan-ok :
      (plan_id : String) (st st' : State) (plan : Plan)
      → find_plan describe w plan_id st ≡ (ok plan, st')
      → (peek plan_id w.caller.email w.peek_time st.store ≡ ok plan) × (st' ≡ st)
  unfolding find_plan
  find_plan-ok plan_id st st' plan e =
      elim (Result-cases (peek plan_id w.caller.email w.peek_time st.store)) [
        | inl (p, h) ↦ let e' = rw h at e in (rw h cc, cc)
        | inr (x, h) ↦ cc (rw h at e)
      ]

  pub find_payload-ok :
      (plan : Plan) (st st' : State) (fs : Fields)
      → find_payload describe w plan st ≡ (ok fs, st')
      → (operation_of plan ≢ "") × (payload_of plan ≡ some fs) × (st' ≡ st)
  unfolding find_payload
  find_payload-ok plan st st' fs e = elim (Option-cases (payload_of plan)) [
    | inl gone ↦ cc (rw gone at e)
    | inr (fs', h) ↦ elim (Bool-cases (str_eq (operation_of plan) "")) [
      | inl empty ↦ cc (rw (h, empty) at e)
      | inr named ↦
          let e' = rw (h, named) at e in
          (ground (arith, eq_iff (operation_of plan) ""), rw h cc, cc)
    ]
  ]

  pub find_checks-ok :
      (plan : Plan) (st st' : State) (checks : OperationChecks Current)
      → find_checks describe w plan st ≡ (ok checks, st')
      → (w.operations plan.tool ≡ some checks) × (st' ≡ st)
  unfolding find_checks
  find_checks-ok plan st st' checks e = elim (Option-cases (w.operations plan.tool)) [
    | inl gone ↦ cc (rw gone at e)
    | inr (c, h) ↦ let e' = rw h at e in (rw h cc, cc)
  ]

  pub ask_gate-ok :
      (s : Services) (a : Await) (q : GuardRequest) (st st' : State) (d : GuardDecision)
      → ask_gate describe w s a q st ≡ (ok d, st')
      → ((check describe s q (w.meanwhile a st).log).0 ≡ ok d)
        × (d.is_allowed ≡ true)
        × (st'.store ≡ (w.meanwhile a st).store)
  unfolding ask_gate
  ask_gate-ok s a q st st' d e =
      let answer = check describe s q (w.meanwhile a st).log in
      let (same, allowed, kept) = answered answer.0 (with_log answer.1 (w.meanwhile a st)) e in
      (same, allowed, ap (λ (z : State). z.store) kept)
    where
      chosen :
          (b : Bool) (d' : GuardDecision) (mid : State)
          → (if b then pure d' else refuse (gate_refused d')) mid ≡ (ok d, st')
          → (b ≡ true) × (d' ≡ d) × (st' ≡ mid)
      chosen true d' mid e = (refl, cc, cc)
      chosen false d' mid e = cc

      answered :
          (x : Result Raised GuardDecision) (mid : State)
          → through_gate describe w x mid ≡ (ok d, st')
          → (x ≡ ok d) × (d.is_allowed ≡ true) × (st' ≡ mid)
      answered (err x) mid e = cc
      answered (ok d') mid e =
          let (b, same, kept) = chosen d'.is_allowed d' mid e in
          (ap ok same, ap (λ (z : GuardDecision). z.is_allowed) (sym same) ∙ b, kept)

  -- A person has accepted, or none is asked.
  abbrev pub IsApproved : Plan → State → State → Type 0
  IsApproved plan st st' =
      ((w.require_human_confirmation ≡ true)
        × (w.elicit plan.preview ≡ ok accepted)
        × (st' ≡ w.meanwhile asking st))
      ⊎ ((w.require_human_confirmation ≡ false) × (st' ≡ st))

  pub require_human_approval-ok :
      (plan : Plan) (st st' : State) (u : Unit {0})
      → require_human_approval describe w plan st ≡ (ok u, st')
      → IsApproved plan st st'
  unfolding require_human_approval
  require_human_approval-ok plan st st' u e = elim (Bool-cases w.require_human_confirmation) [
    | inr quiet ↦ let e' = rw quiet at e in inr (quiet, cc)
    | inl asked ↦ elim (Result-cases (w.elicit plan.preview)) [
      | inr (x, h) ↦ cc (rw (asked, h) at e)
      | inl (accepted, h) ↦ let e' = rw (asked, h) at e in inl (asked, h, cc)
      | inl (refused, h) ↦ cc (rw (asked, h) at e)
      | inl (cancelled, h) ↦ cc (rw (asked, h) at e)
    ]
  ]

  pub claim_plan-ok :
      (plan_id : String) (st st' : State) (p : Plan)
      → claim_plan describe w plan_id st ≡ (ok p, st')
      → consume plan_id w.caller.email w.consume_time w.wall st.store ≡ (ok p, st'.store)
  unfolding claim_plan
  claim_plan-ok plan_id st st' p e =
      marked (consume plan_id w.caller.email w.consume_time w.wall st.store) e
    where
      both :
          (q : Plan) (store : PlanStore)
          → ◌≡◌ {A = Result Refusal Plan} (ok q) (ok p)
          → store ≡ st'.store
          → ◌≡◌ {A = Result PlanError Plan × PlanStore} (ok q, store) (ok p, st'.store)
      both q store a b = cc

      marked :
          (x : Result PlanError Plan × PlanStore)
          → claimed_as describe w st x ≡ (ok p, st')
          → x ≡ (ok p, st'.store)
      marked (err x, store) e = cc
      marked (ok q, store) e = both q store (ap (λ y. y.0) e) (ap (λ y. y.1.store) e)
