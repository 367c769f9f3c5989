-- ===== src/Safety/Spend/Lines.antt =====
-- What the readers of a date see of the audit log once a line has been written.
use gads_write_mcp.Base.{
  String, ◌≡◌, refl, inl, inr, true, false, not, ◌&&◌, Option, List, [], ◌∷◌, ◌++◌, if◌then◌else◌,
  Bool-cases, str_eq, eq_iff, ap, ◌∙◌, sym,
}
use mathlib.Core.Path.{subst}
use mathlib.Core.List.{append_assoc, append-nil}
use gads_write_mcp.Base.Dict.{Dict, lookup, lookup-insert, str_eq_of_ne}
use gads_write_mcp.Python.Value.{Arguments, get, is_text}
use gads_write_mcp.Safety.Audit.Log.{
  AuditRecord, AuditLog, Disk, Line, object, malformed, append, roll_over, prune, prune_files,
  is_prunable, read_lines, iter_records, to_fields, lines_or_none, is_date,
}

-- Pruning leaves the file of a date that is not old.
lookup-prune_files :
    (disk : Disk) (date : String) (files : Dict (List Line))
    → is_prunable disk date ≡ false
    → lookup date (prune_files disk files) ≡ lookup date files
unfolding prune_files lookup
lookup-prune_files disk date [] h = refl
lookup-prune_files disk date ((stamp, lines) ∷ files) h =
    elim (Bool-cases (is_prunable disk stamp)) [
      | inl old ↦
          rw (old, str_eq_of_ne stamp date (λ e. differ stamp e old))
            (lookup-prune_files disk date files h)
      | inr recent ↦ rw recent (elim (Bool-cases (str_eq stamp date)) [
        | inl here ↦ rw here
        | inr other ↦ rw other (lookup-prune_files disk date files h)
      ])
    ]
  where
    differ : (t : String) → t ≡ date → is_prunable disk t ≡ true → ⊥
    differ t e old = cc (h, subst (λ x. is_prunable disk x ≡ true) e old)

lookup-roll_over :
    (disk : Disk) (day date : String) (log : AuditLog)
    → is_prunable disk date ≡ false
    → (lookup date (roll_over disk day log).files ≡ lookup date log.files)
      × ((roll_over disk day log).legacy ≡ log.legacy)
unfolding roll_over prune
lookup-roll_over disk day date log h = elim (Bool-cases (is_date log.last_written_date day)) [
  | inl same ↦ rw same (refl, refl)
  | inr fresh ↦ rw fresh (lookup-prune_files disk date log.files h, refl)
]

read_lines-append :
    (date : String) (xs ys : List Line)
    → read_lines date (xs ++ ys) ≡ read_lines date xs ++ read_lines date ys
unfolding read_lines
read_lines-append date [] ys = refl
read_lines-append date (malformed ∷ xs) ys = read_lines-append date xs ys
read_lines-append date (object o ∷ xs) ys = elim (Bool-cases (is_text (get o "local_date") date)) [
  | inl same ↦ rw (same, read_lines-append date xs ys)
  | inr other ↦ rw (other, read_lines-append date xs ys)
]

read_lines-record :
    (date : String) (r : AuditRecord)
    → read_lines date (object (to_fields r) ∷ [])
      ≡ (if str_eq r.local_date date then to_fields r ∷ [] else [])
unfolding read_lines to_fields
read_lines-record date r = refl

-- What a date's readers see after a line is written: the line, if it is of that date and the disk
-- takes it.
abbrev pub added : Disk → String → AuditRecord → List Arguments
added disk date r =
    if not disk.write_fails && str_eq r.local_date date then to_fields r ∷ [] else []

pub iter_records-append :
    (disk : Disk) (date : String) (r : AuditRecord) (log : AuditLog)
    → is_prunable disk date ≡ false
    → iter_records date (append disk r log).1 ≡ iter_records date log ++ added disk date r
unfolding iter_records append
iter_records-append disk date r log h =
    let rolled = roll_over disk r.local_date log in
    let (files, legacy) = lookup-roll_over disk r.local_date date log h in
    elim (Bool-cases disk.write_fails) [
      | inl broken ↦ rw (broken, files, legacy) (sym (append-nil _))
      | inr fine ↦
          let old = lines_or_none (lookup r.local_date rolled.files) in
          rw
            (
              fine,
              legacy,
              lookup-insert r.local_date date (old ++ object (to_fields r) ∷ []) rolled.files,
            )
            (elim (Bool-cases (str_eq r.local_date date)) [
              | inl same ↦ rw same (
                  same_date old (lookup r.local_date rolled.files) refl
                    (ap (λ k. lookup k rolled.files) ((eq_iff r.local_date date).0 same) ∙ files)
                    same)
              | inr other ↦ rw (other, files) (sym (append-nil _))
            ])
    ]
  where
    same_date :
        (old : List Line) (o : Option (List Line))
        → old ≡ lines_or_none o
        → o ≡ lookup date log.files
        → str_eq r.local_date date ≡ true
        → read_lines date (lines_or_none log.legacy)
            ++ read_lines date (old ++ object (to_fields r) ∷ [])
          ≡ iter_records date log ++ to_fields r ∷ []
    same_date old o here e same =
        rw
          (
            here,
            e,
            read_lines-append date (lines_or_none (lookup date log.files))
                (object (to_fields r) ∷ []),
            read_lines-record date r,
            same,
          )
          (sym (
            append_assoc (read_lines date (lines_or_none log.legacy))
              (read_lines date (lines_or_none (lookup date log.files))) (to_fields r ∷ [])))
