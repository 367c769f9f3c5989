-- ===== src/Safety/Audit/Log.antt =====
-- The audit log on disk: one file of lines for each local date, and the single file from before
-- the log was split. A line is an object, or text that is no JSON. What the clock and the disk
-- say during a call is an argument.
use Prim.Native.Nat.{Ordering}
use Prim.Native.String.{compare, count}
use gads_write_mcp.Base.{
  ℕ, ◌-◌, String, Bool, true, false, not, ◌&&◌, Option, none, some, List, [], ◌∷◌, ◌++◌, ◌==◌,
  str_eq, if◌then◌else◌, Result, ok, err, length,
}
use gads_write_mcp.Base.Dict.{Dict, lookup, insert}
use gads_write_mcp.Python.Value.{
  Value, null, bool, str, seq, dict, Items, nil, cons, Fields, end, field, Arguments, get, is_text,
}
use gads_write_mcp.Python.Text.{Runtime}
use gads_write_mcp.Safety.Audit.{redact, redact_fields}

pub record AuditRecord : Type 0 where
  pub timestamp : String
  pub local_date : String
  pub user_email : String
  pub tool : String
  pub verdict : String
  pub dry_run : Bool
  pub applied : Bool
  pub arguments : Fields
  pub customer_id : Option String
  pub plan_id : Option String
  pub denied_reasons : List String
  pub resource_names : List String
  pub spend_delta_units : Option String
  pub result : Option Fields
  pub error : Option String

abbrev fields_of : Arguments → Fields
fields_of [] = end
fields_of ((k, v) ∷ args) = field k v (fields_of args)

module _ ⦃py : Runtime⦄ where
  -- `redact(arguments or {})`, which `AuditRecord.build` applies to what it is given.
  unfoldable pub redacted_arguments : Arguments → Fields
  unfolding redact
  redacted_arguments args = redact_fields 0 (fields_of args)

abbrev opt_text : Option String → Value
opt_text none = null
opt_text (some s) = str s

abbrev opt_fields : Option Fields → Value
opt_fields none = null
opt_fields (some fs) = dict fs

abbrev texts : List String → Items
texts [] = nil
texts (s ∷ ss) = cons (str s) (texts ss)

-- The object that a record's line parses back to; `sort_keys` puts the keys in this order.
unfoldable pub to_fields : AuditRecord → Arguments
to_fields r =
    ("applied", bool r.applied)
    ∷ ("arguments", dict r.arguments)
    ∷ ("customer_id", opt_text r.customer_id)
    ∷ ("denied_reasons", seq (texts r.denied_reasons))
    ∷ ("dry_run", bool r.dry_run)
    ∷ ("error", opt_text r.error)
    ∷ ("local_date", str r.local_date)
    ∷ ("plan_id", opt_text r.plan_id)
    ∷ ("resource_names", seq (texts r.resource_names))
    ∷ ("result", opt_fields r.result)
    ∷ ("spend_delta_units", opt_text r.spend_delta_units)
    ∷ ("timestamp", str r.timestamp)
    ∷ ("tool", str r.tool)
    ∷ ("user_email", str r.user_email)
    ∷ ("verdict", str r.verdict)
    ∷ []

pub data Line : Type 0 where
  object : Arguments → Line
  malformed : Line

pub record AuditLog : Type 0 where
  pub legacy : Option (List Line)
  pub files : Dict (List Line)
  pub last_written_date : Option String

-- `cutoff` is the ISO date `retention_days` before the clock's; `locked` files cannot be deleted;
-- `write_fails` when opening or writing the file raises OSError.
pub record Disk : Type 0 where
  pub cutoff : String
  pub locked : String → Bool
  pub write_fails : Bool

pub data OsError : Type 0 where
  os_error : OsError

abbrev is_before : String → String → Bool
is_before s t = elim (compare s t) [ Ordering.lt ↦ true | _ ↦ false ]

-- A file whose stamp is a date of ten characters before the cutoff, and that can be deleted.
abbrev pub is_prunable : Disk → String → Bool
is_prunable disk stamp = count stamp == 10 && is_before stamp disk.cutoff && not (disk.locked stamp)

unfoldable pub prune_files : Disk → Dict (List Line) → Dict (List Line)
prune_files disk [] = []
prune_files disk ((stamp, lines) ∷ files) =
    let rest = prune_files disk files in
    if is_prunable disk stamp then rest else (stamp, lines) ∷ rest

-- The log after, and the number of files removed.
unfoldable pub prune : Disk → AuditLog → AuditLog × ℕ
unfolding prune_files
prune disk log =
    let kept = prune_files disk log.files in
    (record log { files = kept }, length log.files - length kept)

abbrev pub is_date : Option String → String → Bool
is_date none date = false
is_date (some d) date = str_eq d date

abbrev pub lines_or_none : Option (List Line) → List Line
lines_or_none none = []
lines_or_none (some lines) = lines

-- On the first write of a date the log is pruned and the date noted.
unfoldable pub roll_over : Disk → String → AuditLog → AuditLog
unfolding prune
roll_over disk date log =
    if is_date log.last_written_date date
    then log
    else record (prune disk log).0 { last_written_date = some date }

unfoldable pub append : Disk → AuditRecord → AuditLog → Result OsError (Unit {0}) × AuditLog
unfolding roll_over to_fields lookup insert
append disk r log =
    let rolled = roll_over disk r.local_date log in
    if disk.write_fails
    then (err os_error, rolled)
    else let old = lines_or_none (lookup r.local_date rolled.files) in
      (
        ok tt,
        record rolled {
          files = insert r.local_date (old ++ object (to_fields r) ∷ []) rolled.files;
        },
      )

-- `_read_file` for one date: malformed lines and lines of other dates are skipped.
unfoldable pub read_lines : String → List Line → List Arguments
unfolding lookup
read_lines date [] = []
read_lines date (malformed ∷ lines) = read_lines date lines
read_lines date (object o ∷ lines) =
    let rest = read_lines date lines in if is_text (get o "local_date") date then o ∷ rest else rest

-- `iter_records(local_date=...)`
unfoldable pub iter_records : String → AuditLog → List Arguments
unfolding read_lines lookup
iter_records date log =
    read_lines date (lines_or_none log.legacy)
    ++ read_lines date (lines_or_none (lookup date log.files))
