-- ===== src/Safety/Guard/Audited.antt =====
-- What the gate writes: every decision is one line, and no line of the gate counts as spending.
use gads_write_mcp.Base.{
  String, ◌≡◌, refl, false, none, [], ◌∷◌, ◌++◌, if◌then◌else◌, Result, ok, err, sym, ◌∙◌,
}
use gads_write_mcp.Python.Value.{Arguments, get, bool, str}
use gads_write_mcp.Python.Text.{Runtime}
use gads_write_mcp.Safety.Units.{Raised}
use gads_write_mcp.Safety.Audit.Log.{AuditLog, is_prunable, iter_records, to_fields}
use gads_write_mcp.Safety.Spend.{total_increase_units}
use text.Mathlib.TextPositions.{eq_refl}
use gads_write_mcp.Safety.Spend.Laws.{append-total_not_applied}
use gads_write_mcp.Safety.Spend.Lines.{added, iter_records-append}
use gads_write_mcp.Safety.Guard.{
  Denial, GuardDecision, Services, GuardRequest, decision_record, write_audit, decide, logged,
  check, verdict_text,
}

-- The line of a decision, as its readers see it.
pub record IsLineOf (r : GuardRequest) (d : GuardDecision) (line : Arguments) : Type 0 where
  pub tool : get line "tool" ≡ str d.tool
  pub verdict : get line "verdict" ≡ str (verdict_text d.verdict)
  pub not_applied : get line "applied" ≡ bool false
  pub dry_run : get line "dry_run" ≡ bool r.dry_run

module _ ⦃py : Runtime⦄ (describe : Denial → String) where
  logged-total :
      (s : Services) (r : GuardRequest) (log : AuditLog) (answer : Result Raised GuardDecision)
      (user date : String)
      → is_prunable s.disk date ≡ false
      → total_increase_units user date (logged describe s r log answer).1
        ≡ total_increase_units user date log
  unfolding logged write_audit decision_record
  logged-total s r log (err e) user date h = refl
  logged-total s r log (ok d) user date h =
      append-total_not_applied s.disk user date
        (decision_record describe s r d d.policy
          (if d.is_allowed then r.spend_delta_units else none))
        log h refl

  -- A call of the gate, allowed or refused, leaves the daily total of every person as it is.
  pub check-total :
      (s : Services) (r : GuardRequest) (log : AuditLog) (user date : String)
      → is_prunable s.disk date ≡ false
      → total_increase_units user date (check describe s r log).1
        ≡ total_increase_units user date log
  unfolding check
  check-total s r log user date h = logged-total s r log (decide s r log) user date h

  logged-one_line :
      (s : Services) (r : GuardRequest) (log : AuditLog) (d : GuardDecision) (date : String)
      (answer : Result Raised GuardDecision)
      → answer ≡ ok d
      → s.disk.write_fails ≡ false
      → s.date_in d.policy.timezone ≡ date
      → is_prunable s.disk date ≡ false
      → (line : Arguments) × IsLineOf r d line
        × (iter_records date (logged describe s r log answer).1
            ≡ iter_records date log ++ line ∷ [])
  unfolding logged write_audit decision_record to_fields
  logged-one_line s r log d date answer h fine today recent =
      let record_of =
        decision_record describe s r d d.policy
          (if d.is_allowed then r.spend_delta_units else none) in
      let seen : added s.disk date record_of ≡ to_fields record_of ∷ [] =
        rw (fine, today, eq_refl date) in
      rw h (
        to_fields record_of,
        record { tool = refl; verdict = refl; not_applied = refl; dry_run = refl },
        rw (iter_records-append s.disk date record_of log recent, seen),
      )

  logged-answer :
      (s : Services) (r : GuardRequest) (log : AuditLog) (answer : Result Raised GuardDecision)
      → (logged describe s r log answer).0 ≡ answer
  unfolding logged
  logged-answer s r log (err e) = refl
  logged-answer s r log (ok d) = refl

  pub check-answer :
      (s : Services) (r : GuardRequest) (log : AuditLog)
      → (check describe s r log).0 ≡ decide s r log
  unfolding check
  check-answer s r log = logged-answer s r log (decide s r log)

  -- Whenever the gate decides, allowing or refusing, and the disk takes the line, the log of the
  -- decision's date has exactly one line more, which names the tool and the verdict.
  pub check-one_line :
      (s : Services) (r : GuardRequest) (log : AuditLog) (d : GuardDecision)
      → (check describe s r log).0 ≡ ok d
      → s.disk.write_fails ≡ false
      → is_prunable s.disk (s.date_in d.policy.timezone) ≡ false
      → (line : Arguments) × IsLineOf r d line
        × (iter_records (s.date_in d.policy.timezone) (check describe s r log).1
            ≡ iter_records (s.date_in d.policy.timezone) log ++ line ∷ [])
  unfolding check
  check-one_line s r log d h fine recent =
      logged-one_line s r log d (s.date_in d.policy.timezone) (decide s r log)
        (sym (logged-answer s r log (decide s r log)) ∙ h) fine refl recent
