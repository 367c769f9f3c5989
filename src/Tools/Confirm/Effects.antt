-- ===== src/Tools/Confirm/Effects.antt =====
-- What a confirmation leaves behind: the plans where it stops early, and the daily total where
-- nothing was applied.
use gads_write_mcp.Base.{
  String, ◌≡◌, refl, sym, ap, ◌∙◌, Bool, true, false, Option, none, some, List, [], Result, ok, err,
}
use gads_write_mcp.Python.Decimal.{Decimal, Number}
use gads_write_mcp.Python.Text.{Runtime, strip}
use gads_write_mcp.Python.Value.{Fields}
use gads_write_mcp.Safety.Audit.Log.{AuditLog, OsError, append, is_prunable}
use gads_write_mcp.Safety.Guard.{Denial, record_application, application_record}
use gads_write_mcp.Safety.Guard.Audited.{check-total}
use gads_write_mcp.Safety.Plans.{Plan, PlanStore, PlanError, consume}
use gads_write_mcp.Safety.Plans.Checks.{ConsumeEffect, consume-effect}
use gads_write_mcp.Safety.Spend.{total_increase_units}
use gads_write_mcp.Safety.Spend.Laws.{append-total_not_applied, append-total_broken, append-err}
use gads_write_mcp.Tools.Confirm.{
  State, Refusal, MutationResult, Applied, raised, failed, done, unlogged, Outcome, stopped, sent,
  Await, World, Ready, claim_plan, claimed, prepare, request_of, recorded, by_success,
  record_answer, reported, carry_out, finish, confirm_and_apply, failure_text,
}
use gads_write_mcp.Tools.Confirm.Keeps.{Keeps, KeepsRefusing, prepare-Keeps, prepare-KeepsRefusing}

-- A change that went through and is in the log.
abbrev pub is_applied : Outcome → Bool
is_applied (stopped r) = false
is_applied (sent q (raised e)) = false
is_applied (sent q (failed r)) = false
is_applied (sent q (done p r)) = true
is_applied (sent q unlogged) = false

module _ {Current : Type 0} ⦃py : Runtime⦄ (describe : Denial → String) (w : World Current) where
  -- A refused claim leaves the plans as they are, and no claim touches the log.
  claim_plan-KeepsRefusing :
      (plan_id : String) → KeepsRefusing (λ (st : State). st.store) (claim_plan describe w plan_id)
  unfolding claim_plan
  claim_plan-KeepsRefusing plan_id st st' r e =
      kept (consume plan_id w.caller.email w.consume_time w.wall st.store)
        (consume-effect plan_id w.caller.email w.consume_time w.wall st.store) e
    where
      kept :
          (x : Result PlanError Plan × PlanStore)
          → ConsumeEffect plan_id w.wall st.store x
          → claimed describe w st x ≡ (err r, st')
          → st'.store ≡ st.store
      kept (err x, store) effect e = ap (λ y. y.1.store) (sym e) ∙ effect
      kept (ok p, store) effect e = cc

  claim_plan-log :
      (plan_id : String) → Keeps (λ (st : State). st.log) (claim_plan describe w plan_id)
  unfolding claim_plan
  claim_plan-log plan_id st = kept (consume plan_id w.caller.email w.consume_time w.wall st.store)
    where
      kept : (x : Result PlanError Plan × PlanStore) → (claimed describe w st x).1.log ≡ st.log
      kept (err x, store) = refl
      kept (ok p, store) = refl

  finish-stopped :
      (x : Result Refusal Ready × State) (r : Refusal) (st' : State)
      → finish describe w x ≡ (stopped r, st')
      → x ≡ (err r, st')
  unfolding carry_out
  finish-stopped (err r', st) r st' e = cc
  finish-stopped (ok a, st) r st' e = cc

  -- A confirmation that stops before anything is sent, for whatever reason, leaves every plan as it
  -- was, still open, provided that the calls which run meanwhile leave them so.
  pub confirm-stopped_store :
      (plan_id : String) (st st' : State) (r : Refusal)
      → ((a : Await) (s : State) → (w.meanwhile a s).store ≡ s.store)
      → confirm_and_apply describe w plan_id st ≡ (stopped r, st')
      → st'.store ≡ st.store
  unfolding confirm_and_apply
  confirm-stopped_store plan_id st st' r idle e =
      prepare-KeepsRefusing describe w (λ (s : State). s.store) idle (λ q s. refl) (λ q s. refl)
        (strip plan_id) claim_plan-KeepsRefusing st st' r
        (finish-stopped (prepare describe w (strip plan_id) st) r st' e)

  module _ (user date : String) where
    abbrev total : State → Option Decimal
    total st = total_increase_units user date st.log

    recorded-total :
        (r : Ready) (answer : Applied) (names : List String) (delta : Option Number)
        (result : Option Fields) (error : String) (log : AuditLog)
        → is_prunable w.apply_services.disk date ≡ false
        → total_increase_units user date
            (recorded describe w r answer names delta result (some error) log).1
          ≡ total_increase_units user date log
    unfolding record_application application_record
    recorded-total r answer names delta result error log recent =
        let line =
          application_record w.apply_services r.decision r.plan.arguments (some r.plan.plan_id)
            names delta result (some error) false in
        reported-log (append w.apply_services.disk line log)
        ∙ append-total_not_applied w.apply_services.disk user date line log recent refl
      where
        reported-log :
            (x : Result OsError (Unit {0}) × AuditLog)
            → total_increase_units user date (reported describe w answer x).1
              ≡ total_increase_units user date x.1
        reported-log (err e, log) = refl
        reported-log (ok u, log) = refl

    -- A success that the disk does not take.
    unlogged-total :
        (r : Ready) (result : MutationResult) (names : List String) (delta : Option Number)
        (details : Option Fields) (log : AuditLog)
        → is_prunable w.apply_services.disk date ≡ false
        → is_applied (
            sent
              (request_of describe w r)
              (recorded describe w r (done r.plan result) names delta details none log).0)
          ≡ false
        → total_increase_units user date
            (recorded describe w r (done r.plan result) names delta details none log).1
          ≡ total_increase_units user date log
    unfolding record_application
    unlogged-total r result names delta details log recent h =
        let line =
          application_record w.apply_services r.decision r.plan.arguments (some r.plan.plan_id)
            names delta details none false in
        by_write (append w.apply_services.disk line log) (append-err w.apply_services.disk line log)
          (append-total_broken w.apply_services.disk user date line log recent) h
      where
        by_write :
            (x : Result OsError (Unit {0}) × AuditLog)
            → ((e : OsError) → x.0 ≡ err e → w.apply_services.disk.write_fails ≡ true)
            → (w.apply_services.disk.write_fails ≡ true
                → total_increase_units user date x.1 ≡ total_increase_units user date log)
            → is_applied
                (sent (request_of describe w r) (reported describe w (done r.plan result) x).0)
              ≡ false
            → total_increase_units user date (reported describe w (done r.plan result) x).1
              ≡ total_increase_units user date log
        by_write (err e, after) broken same h = same (broken e refl)
        by_write (ok u, after) broken same h = cc

    by_success-total :
        (r : Ready) (success : Bool) (result : MutationResult) (log : AuditLog)
        → is_prunable w.apply_services.disk date ≡ false
        → is_applied (sent (request_of describe w r) (by_success describe w r success result log).0)
          ≡ false
        → total_increase_units user date (by_success describe w r success result log).1
          ≡ total_increase_units user date log
    unfolding by_success recorded
    by_success-total r true result log recent h =
        unlogged-total r result result.resource_names r.spend_delta (some result.details) log recent
          h
    by_success-total r false result log recent h =
        recorded-total r (failed result) result.resource_names none none
          (failure_text describe w result.error) log recent

    record_answer-total :
        (r : Ready) (answer : Result String MutationResult) (log : AuditLog)
        → is_prunable w.apply_services.disk date ≡ false
        → is_applied (sent (request_of describe w r) (record_answer describe w r answer log).0)
          ≡ false
        → total_increase_units user date (record_answer describe w r answer log).1
          ≡ total_increase_units user date log
    unfolding record_answer
    record_answer-total r (err exc) log recent h =
        recorded-total r (raised exc) [] none none exc log recent
    record_answer-total r (ok result) log recent h =
        by_success-total r result.success result log recent h

    -- A confirmation that applies nothing, since it was refused, since the executor raised or reported
    -- failure, or since the log could not be written, adds nothing to the daily total of anybody.
    pub confirm-total :
        (plan_id : String) (st : State)
        → ((a : Await) (s : State)
            → total_increase_units user date (w.meanwhile a s).log
              ≡ total_increase_units user date s.log)
        → is_prunable w.authorise_services.disk date ≡ false
        → is_prunable w.gate_services.disk date ≡ false
        → is_prunable w.apply_services.disk date ≡ false
        → is_applied (confirm_and_apply describe w plan_id st).0 ≡ false
        → total_increase_units user date (confirm_and_apply describe w plan_id st).1.log
          ≡ total_increase_units user date st.log
    unfolding confirm_and_apply carry_out
    confirm-total plan_id st idle recent_1 recent_2 recent_3 h =
        finished (prepare describe w (strip plan_id) st) h
        ∙ prepare-Keeps describe w total idle
            (λ q s. check-total describe w.authorise_services q s.log user date recent_1)
            (λ q s. check-total describe w.gate_services q s.log user date recent_2) (strip plan_id)
            (λ id s. ap (total_increase_units user date) (claim_plan-log id s)) st
      where
        finished :
            (x : Result Refusal Ready × State)
            → is_applied (finish describe w x).0 ≡ false
            → total (finish describe w x).1 ≡ total x.1
        finished (err r, s) h = refl
        finished (ok r, s) h =
            let after = w.meanwhile Await.applying s in
            record_answer-total r (w.apply (request_of describe w r)) after.log recent_3 h
            ∙ idle Await.applying s
