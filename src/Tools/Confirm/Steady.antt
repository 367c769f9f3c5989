-- ===== src/Tools/Confirm/Steady.antt =====
-- The plan through a confirmation: what is claimed at the end is what was found at the start, if
-- other calls put nothing claimable under its id.
use gads_write_mcp.Base.{String, ◌≡◌, sym, ap, ◌∙◌, inl, inr, Option, none, some}
use gads_write_mcp.Base.Int.{pos}
use gads_write_mcp.Base.Dict.{lookup}
use gads_write_mcp.Python.Text.{Runtime}
use gads_write_mcp.Safety.Guard.{Denial}
use gads_write_mcp.Safety.Plans.{Plan, PlanStore, peek, mark_consumed}
use gads_write_mcp.Safety.Plans.Checks.{checked_locked-found, consume-claimed}
use gads_write_mcp.Tools.Confirm.{
  State, ReadKind, no_read, campaign, ad_group, keyword, OperationChecks, Await, authorising,
  reading, gating, asking, World, Ready,
}
use gads_write_mcp.Tools.Confirm.Passed.{IsApproved}
use gads_write_mcp.Tools.Confirm.Reread.{IsAuthorisedRead, IsReread}
use gads_write_mcp.Tools.Confirm.Order.{IsPrepared}

pub some_inj : {A : Type 0} {a b : A} → some a ≡ some b → a ≡ b
some_inj h = cc

module _ {Current : Type 0} ⦃py : Runtime⦄ (describe : Denial → String) (w : World Current) where
  -- What other calls leave to claim under an id was there before them: they draft under other ids,
  -- and they mark and remove.
  abbrev pub IsSteady : String → Type 0
  IsSteady plan_id =
      (a : Await) (s : State) (p : Plan)
      → lookup plan_id (w.meanwhile a s).store.plans ≡ some p
      → p.consumed_at ≡ none
      → lookup plan_id s.store.plans ≡ some p

  steady-approval :
      (plan_id : String) (plan p : Plan) (gated claiming : State)
      → IsSteady plan_id
      → IsApproved describe w plan gated claiming
      → lookup plan_id claiming.store.plans ≡ some p
      → p.consumed_at ≡ none
      → lookup plan_id gated.store.plans ≡ some p
  steady-approval plan_id plan p gated claiming steady (inl (asked, agreed, later)) h unused =
      steady asking gated p (ap (λ (s : State). lookup plan_id s.store.plans) (sym later) ∙ h)
        unused
  steady-approval plan_id plan p gated claiming steady (inr (quiet, same)) h unused =
      ap (λ (s : State). lookup plan_id s.store.plans) (sym same) ∙ h

  steady-read :
      (plan_id : String) (checks : OperationChecks Current) (plan p : Plan) (st : State)
      (current : Option Current) (after : State)
      → IsSteady plan_id
      → IsAuthorisedRead describe w checks plan st current after
      → lookup plan_id after.store.plans ≡ some p
      → p.consumed_at ≡ none
      → lookup plan_id st.store.plans ≡ some p
  steady-read plan_id checks plan p st current after steady read h unused =
      steady authorising st p
        (ap (λ (s : PlanStore). lookup plan_id s.plans) (sym read.kept)
          ∙ steady reading read.before_reading p
              (ap (λ (s : State). lookup plan_id s.store.plans) (sym read.later) ∙ h) unused)
        unused

  steady-reread :
      (plan_id : String) (k : ReadKind) (checks : OperationChecks Current) (plan p : Plan)
      (st : State) (current : Option Current) (after : State)
      → IsSteady plan_id
      → IsReread describe w k checks plan st current after
      → lookup plan_id after.store.plans ≡ some p
      → p.consumed_at ≡ none
      → lookup plan_id st.store.plans ≡ some p
  steady-reread plan_id no_read checks plan p st current after steady (_, same) h unused =
      ap (λ (s : State). lookup plan_id s.store.plans) (sym same) ∙ h
  steady-reread plan_id campaign checks plan p st current after steady read h unused =
      steady-read plan_id checks plan p st current after steady read h unused
  steady-reread plan_id ad_group checks plan p st current after steady read h unused =
      steady-read plan_id checks plan p st current after steady read h unused
  steady-reread plan_id keyword checks plan p st current after steady read h unused =
      steady-read plan_id checks plan p st current after steady read h unused

  -- The plan that is claimed is the one that was found and judged.
  pub same_plan :
      (plan_id : String) (st after : State) (r : Ready)
      → IsSteady plan_id
      → (p : IsPrepared describe w plan_id st r after)
      → (lookup plan_id st.store.plans ≡ some p.plan)
        × (lookup plan_id p.before_claim.store.plans ≡ some p.plan)
        × (r.plan ≡ mark_consumed (w.wall (pos 0)) p.plan)
  unfolding peek
  same_plan plan_id st after r steady p =
      let (old, filed, c, marked) =
        consume-claimed plan_id w.caller.email w.consume_time w.wall p.before_claim.store r.plan
          after.store p.claimed in
      let gated =
        steady-approval plan_id p.plan old p.gated p.before_claim steady p.approved filed
          c.unused in
      let judged =
        steady gating p.before_gate old
          (ap (λ (s : PlanStore). lookup plan_id s.plans) (sym p.gated_store) ∙ gated) c.unused in
      let first =
        steady-reread plan_id p.checks.reads p.checks p.plan old st p.current p.before_gate steady
          p.was_read judged c.unused in
      let found =
        checked_locked-found plan_id w.caller.email w.peek_time st.store p.plan p.peeked in
      let same : old ≡ p.plan = some_inj (sym first ∙ found) in
      (found, filed ∙ ap some same, marked ∙ ap (mark_consumed (w.wall (pos 0))) same)
