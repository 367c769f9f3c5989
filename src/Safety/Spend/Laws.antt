-- ===== src/Safety/Spend/Laws.antt =====
-- The daily total as the log grows: what each kind of line adds to it.
use gads_write_mcp.Base.{
  ℕ, ◌+◌, String, ◌≡◌, ◌≢◌, inl, inr, Bool, true, false, not, ◌&&◌, some, List, [], ◌∷◌, ◌++◌,
  if◌then◌else◌, err, Bool-cases, Option-cases, str_eq,
}
use text.Mathlib.TextPositions.{eq_refl}
use mathlib.Core.List.{append-nil}
use gads_write_mcp.Base.Dict.{str_eq_of_ne}
use gads_write_mcp.Python.Decimal.{Decimal, finite, whole, ltd, add}
use gads_write_mcp.Python.Value.{Arguments}
use gads_write_mcp.Python.Text.{Runtime, normalised}
use gads_write_mcp.Safety.Audit.Log.{
  AuditRecord, AuditLog, Disk, OsError, append, is_prunable, iter_records, to_fields,
}
use gads_write_mcp.Safety.Spend.{
  Tally, tally_record, tally_records, tally_parsed, snapshot, total_increase_units, total_of,
  snapshot_of,
}
use gads_write_mcp.Safety.Spend.Lines.{added, iter_records-append}

some_inj : {t u : Tally} → some t ≡ some u → t ≡ u
some_inj h = cc

module _ ⦃py : Runtime⦄ where
  -- Lines that change no tally change no total, and the last line acts on what is before it.
  tally_records-idle :
      (email : String) (xs ys : List Arguments) (t : Tally)
      → ((u : Tally) → tally_records email ys u ≡ some u)
      → tally_records email (xs ++ ys) t ≡ tally_records email xs t
  unfolding tally_records
  tally_records-idle email [] ys t h = h t
  tally_records-idle email (x ∷ xs) ys t h = elim (Option-cases (tally_record email x t)) [
    | inl undefined ↦ rw (undefined, tally_records)
    | inr (t', e) ↦ rw (e, tally_records) (tally_records-idle email xs ys t' h)
  ]

  tally_records-last :
      (email : String) (xs : List Arguments) (o : Arguments) (t u w : Tally)
      → tally_records email xs t ≡ some u
      → tally_record email o u ≡ some w
      → tally_records email (xs ++ o ∷ []) t ≡ some w
  unfolding tally_records
  tally_records-last email [] o t u w h e =
      rw (tally_record_at o t u w (some_inj h) e, tally_records)
    where
      tally_record_at :
          (o : Arguments) (t u w : Tally)
          → t ≡ u
          → tally_record email o u ≡ some w
          → tally_record email o t ≡ some w
      tally_record_at o t u w same e = rw same e
  tally_records-last email (x ∷ xs) o t u w h e = elim (Option-cases (tally_record email x t)) [
    | inl undefined ↦ cc (rw (undefined, tally_records) at h)
    | inr (t', g) ↦
        rw (g, tally_records) (tally_records-last email xs o t' u w (rw (g, tally_records) at h) e)
  ]

  -- A line that is not applied adds nothing.
  tally_record-not_applied :
      (email : String) (r : AuditRecord) (t : Tally)
      → r.applied ≡ false
      → tally_record email (to_fields r) t ≡ some t
  unfolding tally_record to_fields
  tally_record-not_applied email r t h = rw h

  added-idle :
      (email : String) (disk : Disk) (date : String) (r : AuditRecord)
      → r.applied ≡ false
      → (u : Tally) → tally_records email (added disk date r) u ≡ some u
  unfolding tally_records to_fields
  added-idle email disk date r off u =
      elim (Bool-cases (not disk.write_fails && str_eq r.local_date date)) [
        | inl seen ↦ rw (seen, tally_record-not_applied email r u off)
        | inr unseen ↦ rw unseen
      ]

  -- A line that is not applied leaves every person's total on every date as it is, unless the
  -- date's file is old enough to be deleted.
  pub append-total_not_applied :
      (disk : Disk) (user date : String) (r : AuditRecord) (log : AuditLog)
      → is_prunable disk date ≡ false
      → r.applied ≡ false
      → total_increase_units user date (append disk r log).1 ≡ total_increase_units user date log
  unfolding total_increase_units snapshot
  append-total_not_applied disk user date r log h off = rw (
    iter_records-append disk date r log h,
    tally_records-idle (normalised user) (iter_records date log) (added disk date r) (whole 0, 0)
        (added-idle (normalised user) disk date r off),
  )

  -- Nor does a line that the disk does not take.
  pub append-total_broken :
      (disk : Disk) (user date : String) (r : AuditRecord) (log : AuditLog)
      → is_prunable disk date ≡ false
      → disk.write_fails ≡ true
      → total_increase_units user date (append disk r log).1 ≡ total_increase_units user date log
  unfolding total_increase_units snapshot
  append-total_broken disk user date r log h broken =
      rw (iter_records-append disk date r log h, broken, append-nil (iter_records date log))

  pub append-err :
      (disk : Disk) (r : AuditRecord) (log : AuditLog) (e : OsError)
      → (append disk r log).0 ≡ err e
      → disk.write_fails ≡ true
  unfolding append
  append-err disk r log e h = elim (Bool-cases disk.write_fails) [
    | inl broken ↦ broken
    | inr fine ↦ cc (rw fine at h)
  ]

  -- A line that counts for a person adds its delta if that is above zero.
  pub record IsCounted (user date delta : String) (d : Decimal) (r : AuditRecord) : Type 0 where
    pub on_date : r.local_date ≡ date
    pub theirs : normalised r.user_email ≡ normalised user
    pub done : r.applied ≡ true
    pub let_through : r.verdict ≡ "allowed"
    pub has_delta : r.spend_delta_units ≡ some delta
    pub not_empty : delta ≢ ""
    pub is_number : py.parse_decimal delta ≡ some (finite d)

  tally_parsed-finite :
      (d total : Decimal) (n : ℕ)
      → tally_parsed (some (finite d)) (total, n)
        ≡ some (if ltd (whole 0) d then (add total d, n + 1) else (total, n))
  unfolding tally_parsed
  tally_parsed-finite d total n = elim (Bool-cases (ltd (whole 0) d)) [
    | inl more ↦ rw more
    | inr less ↦ rw less
  ]

  tally_record-counted :
      (user date delta : String) (d : Decimal) (r : AuditRecord) (total : Decimal) (n : ℕ)
      → IsCounted user date delta d r
      → tally_record (normalised user) (to_fields r) (total, n)
        ≡ some (if ltd (whole 0) d then (add total d, n + 1) else (total, n))
  unfolding tally_record to_fields
  tally_record-counted user date delta d r total n c =
      rw
        (
          c.done,
          c.let_through,
          c.theirs,
          eq_refl (normalised user),
          c.has_delta,
          str_eq_of_ne delta "" c.not_empty,
          c.is_number,
        )
        (tally_parsed-finite d total n)

  total_of_choice :
      (email date : String) (rise : Bool) (sum total d : Decimal) (n : ℕ)
      → some sum ≡ some total
      → total_of (snapshot_of email date (some (if rise then (add sum d, n + 1) else (sum, n))))
        ≡ some (if rise then add total d else total)
  total_of_choice email date true sum total d n e = cc
  total_of_choice email date false sum total d n e = e

  -- Once a counting line is written the person's total for its date has grown by the line's delta,
  -- and a delta of zero or less, a lowered budget, gives nothing back.
  pub append-total_counted :
      (disk : Disk) (user date delta : String) (d : Decimal) (r : AuditRecord) (log : AuditLog)
      (total : Decimal)
      → is_prunable disk date ≡ false
      → disk.write_fails ≡ false
      → IsCounted user date delta d r
      → total_increase_units user date log ≡ some total
      → total_increase_units user date (append disk r log).1
        ≡ some (if ltd (whole 0) d then add total d else total)
  unfolding total_increase_units snapshot
  append-total_counted disk user date delta d r log total h ok' c before =
      elim (Option-cases (tally_records (normalised user) (iter_records date log) (whole 0, 0))) [
        | inl undefined ↦ cc (rw undefined at before)
        | inr ((sum, n), e) ↦
            let line = to_fields r in
            let seen : added disk date r ≡ line ∷ [] = rw (ok', c.on_date, eq_refl date) in
            let after =
              tally_records-last (normalised user) (iter_records date log) line (whole 0, 0)
                (sum, n) (if ltd (whole 0) d then (add sum d, n + 1) else (sum, n)) e
                (tally_record-counted user date delta d r sum n c) in
            let sum_total : some sum ≡ some total = rw e at before in
            rw (iter_records-append disk date r log h, seen, after)
              (total_of_choice (normalised user) date (ltd (whole 0) d) sum total d n sum_total)
      ]
