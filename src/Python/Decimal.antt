-- ===== src/Python/Decimal.antt =====
-- decimal.Decimal in the default context: 28 significant digits, ties to even. A finite number
-- is an integer over a power of ten. Which of two equal numbers a computation returns (1.0 or
-- 1.00) shows only in messages, so a positive exponent is written out as zeros.
pub mod Laws
use gads_write_mcp.Base.{
  ℕ, zero, suc, ◌+◌, ◌-◌, ◌*◌, ◌/◌, ◌%◌, ◌^◌, Bool, true, false, Option, none, some, ltb, leb, ◌==◌,
  if◌then◌else◌,
}
use gads_write_mcp.Base.Int.{
  ℤ, pos, negsuc, abs, sub_ℕ, pos_part, neg_part, ltb_ℤ, times, ◌-ℤ◌, ◌+ℤ◌,
}

-- num / 10 ^ places
pub record Decimal : Type 0 where
  pub num : ℤ
  pub places : ℕ

-- What `Decimal(...)` can hold.
pub data Number : Type 0 where
  finite : Decimal → Number
  infinity nan : Number

abbrev pub whole : ℕ → Decimal
whole n = record { num = pos n; places = 0 }

-- Comparisons are exact, in every context.
abbrev pub ltd : Decimal → Decimal → Bool
unfolding times
ltd a b = ltb_ℤ (times a.num (10 ^ b.places)) (times b.num (10 ^ a.places))

-- The two roundings that the program uses, of n / d with d positive.
unfoldable pub half_up : ℕ → ℕ → ℕ
half_up n d = if ltb (2 * (n % d)) d then n / d else n / d + 1

unfoldable pub half_even : ℕ → ℕ → ℕ
half_even n d =
    if ltb (2 * (n % d)) d
    then n / d
    else if ltb d (2 * (n % d))
    then n / d + 1
    else n / d + n / d % 2

abbrev pub with_abs : ℤ → ℕ → ℤ
with_abs (pos n) k = pos k
with_abs (negsuc n) k = sub_ℕ 0 k

-- The number of decimal digits, with fuel for as many.
unfoldable pub count_digits : ℕ → ℕ → ℕ
count_digits zero n = 0
count_digits (suc fuel) n = elim (ltb n 10) [ true ↦ 1 | false ↦ suc (count_digits fuel (n / 10)) ]

abbrev pub digits : ℕ → ℕ
digits n = count_digits (suc n) n

abbrev pub precision : ℕ
precision = 28

-- n / 10 ^ places where the exponent may be positive: `up` more zeros.
abbrev pub with_zeros : ℤ → ℕ → ℕ → Decimal
unfolding times
with_zeros n up places =
    if leb up places
    then record { num = n; places = places - up }
    else record { num = times n (10 ^ (up - places)); places = 0 }

-- Rounds the last `excess` digits away.
abbrev pub drop_digits : ℕ → Decimal → Decimal
unfolding half_even times
drop_digits excess d =
    with_zeros (with_abs d.num (half_even (abs d.num) (10 ^ excess))) excess d.places

-- The context's rounding of an exact result.
unfoldable pub fix : Decimal → Decimal
unfolding count_digits half_even times
fix d =
    if leb (digits (abs d.num)) precision then d else drop_digits (digits (abs d.num) - precision) d

unfoldable pub sub : Decimal → Decimal → Decimal
unfolding fix times ◌-ℤ◌
sub a b = fix (record {
  num = times a.num (10 ^ b.places) -ℤ times b.num (10 ^ a.places);
  places = a.places + b.places;
})

unfoldable pub add : Decimal → Decimal → Decimal
unfolding fix times ◌+ℤ◌
add a b = fix (record {
  num = times a.num (10 ^ b.places) +ℤ times b.num (10 ^ a.places);
  places = a.places + b.places;
})

-- Multiplication by a whole number, which is all that the program does.
unfoldable pub mul : Decimal → ℕ → Decimal
unfolding fix times
mul a k = fix (record { num = times a.num k; places = a.places })

-- The quotient of n by d > 0 to 28 digits. With 28 + digits d places worked out the quotient has
-- at least 29 digits, and it is rounded once, from the exact fraction.
abbrev pub quotient : ℕ → ℕ → (ℕ → ℤ) → Decimal
unfolding half_even count_digits times
quotient n d sign =
    let shift = precision + digits d in
    let excess = digits (n * 10 ^ shift / d) - precision in
    with_zeros (sign (half_even (n * 10 ^ shift) (d * 10 ^ excess))) excess shift

-- The sign of a quotient.
abbrev pub signed : ℤ → ℤ → ℕ → ℤ
signed (pos _) (pos _) k = pos k
signed (negsuc _) (negsuc _) k = pos k
signed _ _ k = sub_ℕ 0 k

-- a / b for b other than zero; zero by anything is zero.
unfoldable pub div : Decimal → Decimal → Decimal
unfolding half_even count_digits times
div a b =
    if abs a.num == 0
    then whole 0
    else quotient (abs a.num * 10 ^ b.places) (abs b.num * 10 ^ a.places) (signed a.num b.num)

-- `d.quantize(...)` to a number of places. `none` is InvalidOperation: the result has more digits
-- than the context's precision.
unfoldable pub quantize : (ℕ → ℕ → ℕ) → ℕ → Decimal → Option Decimal
unfolding count_digits times
quantize rounding target d =
    let n =
      if leb d.places target
      then times d.num (10 ^ (target - d.places))
      else with_abs d.num (rounding (abs d.num) (10 ^ (d.places - target))) in
    if leb (digits (abs n)) precision then some (record { num = n; places = target }) else none
