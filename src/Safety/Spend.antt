-- ===== src/Safety/Spend.antt =====
-- safety/spend.py: what a person has raised budgets by today, read off the audit log each time.
pub mod Lines
pub mod Laws
use gads_write_mcp.Base.{
  ℕ, ◌+◌, String, Bool, true, false, not, ◌&&◌, ◌||◌, Option, none, some, List, [], ◌∷◌, str_eq,
  if◌then◌else◌,
}
use gads_write_mcp.Base.Dict.{lookup}
use gads_write_mcp.Python.Decimal.{Decimal, Number, finite, infinity, nan, whole, ltd, add, sub}
use gads_write_mcp.Python.Value.{Value, null, str, Arguments, get, get_or, truthy, is_text}
use gads_write_mcp.Python.Text.{Runtime, text_of, normalised}
use gads_write_mcp.Safety.Audit.Log.{AuditLog, iter_records}

pub record SpendSnapshot : Type 0 where
  pub user_email : String
  pub local_date : String
  pub total_increase_units : Decimal
  pub change_count : ℕ

-- How much more they may raise budgets by; never negative.
unfoldable pub headroom : Decimal → SpendSnapshot → Decimal
unfolding sub
headroom ceiling snapshot =
    let remaining = sub ceiling snapshot.total_increase_units in
    if ltd (whole 0) remaining then remaining else whole 0

-- `raw_delta in (None, "")`
abbrev is_absent : Value → Bool
is_absent null = true
is_absent v = is_text v ""

-- A running total with the number of changes in it.
abbrev pub Tally : Type 0
Tally = Decimal × ℕ

-- `if delta > 0: total += delta; count += 1`. A comparison with nan raises in Python, and an
-- infinite total is no decimal: `none`.
abbrev tally_number : Number → Tally → Option Tally
unfolding add
tally_number (finite d) (total, n) =
    if ltd (whole 0) d then some (add total d, n + 1) else some (total, n)
tally_number _ t = none

abbrev tally_parsed : Option Number → Tally → Option Tally
unfolding tally_number
tally_parsed none t = some t
tally_parsed (some d) t = tally_number d t

module _ ⦃py : Runtime⦄ where
  -- The records that count: applied, allowed, by this person, with a delta.
  unfoldable pub counts : String → Arguments → Bool
  unfolding lookup normalised
  counts email r =
      truthy (get r "applied")
      && is_text (get r "verdict") "allowed"
      && str_eq (normalised (text_of (get_or r "user_email" (str "")))) email
      && not (is_absent (get r "spend_delta_units"))

  unfoldable pub tally_record : String → Arguments → Tally → Option Tally
  unfolding counts tally_parsed lookup
  tally_record email r t =
      if counts email r
      then tally_parsed (py.parse_decimal (text_of (get r "spend_delta_units"))) t
      else some t

  unfoldable pub tally_records : String → List Arguments → Tally → Option Tally
  unfolding tally_record
  tally_records email [] t = some t
  tally_records email (r ∷ rs) t = elim (tally_record email r t) [
    | none ↦ none
    | some t' ↦ tally_records email rs t'
  ]

  abbrev snapshot_of : String → String → Option Tally → Option SpendSnapshot
  snapshot_of email date none = none
  snapshot_of email date (some (total, n)) = some (record {
    user_email = email;
    local_date = date;
    total_increase_units = total;
    change_count = n;
  })

  -- `none` where a record holds an infinite or undefined delta, which the program never writes.
  unfoldable pub snapshot : String → String → AuditLog → Option SpendSnapshot
  unfolding tally_records iter_records normalised
  snapshot user_email date log =
      let email = normalised user_email in
      snapshot_of email date (tally_records email (iter_records date log) (whole 0, 0))

  abbrev total_of : Option SpendSnapshot → Option Decimal
  total_of none = none
  total_of (some s) = some s.total_increase_units

  unfoldable pub total_increase_units : String → String → AuditLog → Option Decimal
  unfolding snapshot
  total_increase_units user_email date log = total_of (snapshot user_email date log)
