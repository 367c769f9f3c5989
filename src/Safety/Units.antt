-- ===== src/Safety/Units.antt =====
-- safety/units.py: money. Amounts come in as values of any type and leave as exact decimals;
-- micros are whole numbers.
use gads_write_mcp.Base.{ℕ, Option, none, some, ◌==◌, Result, ok, err, ◌>>=◌, if◌then◌else◌}
use gads_write_mcp.Base.Int.{ℤ, pos, abs, ltb_ℤ}
use gads_write_mcp.Python.Decimal.{
  Decimal, Number, finite, whole, ltd, half_up, half_even, sub, mul, div, quantize,
}
use gads_write_mcp.Python.Value.{Value, bool, int, float, str, dec}
use gads_write_mcp.Python.Text.{Runtime, strip}

pub data MoneyError : Type 0 where
  boolean not_a_number wrong_type not_finite negative over_ceiling not_whole_micros from_zero :
      MoneyError

-- What a money function can raise: its own error, or decimal's InvalidOperation; a validator also
-- raises TypeError where an argument is no collection.
pub data Raised : Type 0 where
  money : MoneyError → Raised
  invalid_operation : Raised
  type_error : Raised

abbrev pub micros_per_unit : ℕ
micros_per_unit = 1000000

abbrev pub max_reasonable_units : Decimal
max_reasonable_units = whole 100000000

-- The values that `coerce_units` goes on with, by the type of the amount.
abbrev finite_only : Number → Result Raised Decimal
finite_only (finite d) = ok d
finite_only _ = err (money not_finite)

abbrev or_raise {ℓ} : {A : Type ℓ} → Raised → Option A → Result Raised A
or_raise e none = err e
or_raise e (some a) = ok a

module _ ⦃py : Runtime⦄ where
  unfoldable pub coerce_units : Value → Result Raised Decimal
  unfolding strip
  coerce_units (dec n) = finite_only n
  coerce_units (bool b) = err (money boolean)
  coerce_units (int z) = ok (record { num = z; places = 0 })
  coerce_units (float s) = or_raise invalid_operation (py.parse_decimal s) >>= finite_only
  coerce_units (str s) = or_raise (money not_a_number) (py.parse_decimal (strip s)) >>= finite_only
  coerce_units _ = err (money wrong_type)

  abbrev micros_of : Decimal → Result Raised Decimal
  unfolding mul quantize half_up
  micros_of value =
      if ltd value (whole 0)
      then err (money negative)
      else if ltd max_reasonable_units value
      then err (money over_ceiling)
      else or_raise invalid_operation (quantize half_up 0 (mul value micros_per_unit))

  -- `int(...)` of a number with no places is its numerator.
  unfoldable pub to_micros : Value → Result Raised ℤ
  unfolding coerce_units micros_of
  to_micros amount = do value ← coerce_units amount; m ← micros_of value; ok m.num

unfoldable pub from_micros : Value → Result Raised Decimal
unfolding div quantize half_up
from_micros (int z) =
    if ltb_ℤ z (pos 0)
    then err (money negative)
    else or_raise invalid_operation
        (quantize half_up 2 (div (record { num = z; places = 0 }) (whole micros_per_unit)))
from_micros _ = err (money not_whole_micros)

-- On amounts that are coerced already.
unfoldable pub percent_between : Decimal → Decimal → Result Raised Decimal
unfolding sub div mul quantize half_even
percent_between start target =
    if abs start.num == 0
    then err (money from_zero)
    else or_raise invalid_operation (quantize half_even 4 (mul (div (sub target start) start) 100))

module _ ⦃py : Runtime⦄ where
  unfoldable pub percent_change : Value → Value → Result Raised Decimal
  unfolding coerce_units percent_between
  percent_change from_units to_units = do
    start ← coerce_units from_units
    target ← coerce_units to_units
    percent_between start target
