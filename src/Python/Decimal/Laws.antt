-- ===== src/Python/Decimal/Laws.antt =====
-- The order of decimals, and the error of the two roundings.
use native.Mathlib.Nat.{div-add-mod, mod-lt}
use gads_write_mcp.Base.{ℕ, ◌+◌, ◌*◌, ◌/◌, ◌%◌, ◌≤◌, ◌<◌, ◌≡◌, ◌⊎◌, false, arith}
use gads_write_mcp.Base.Int.{times}
use gads_write_mcp.Python.Decimal.{Decimal, ltd, half_up, half_even}

pub ltd_irrefl : (a : Decimal) → ltd a a ≡ false
unfolding times
ltd_irrefl a = ground arith

-- Rounding to nearest is off by half a unit at most.
pub half_up_bounds :
    (n d : ℕ) → 0 < d → (2 * (half_up n d * d) ≤ 2 * n + d) × (2 * n < 2 * (half_up n d * d) + d)
unfolding half_up
half_up_bounds n d h = grind (arith, div-add-mod n d, mod-lt n h)

mod-two : (q : ℕ) → (q % 2 ≡ 0) ⊎ (q % 2 ≡ 1)
mod-two q = omega arith

pub half_even_bounds :
    (n d : ℕ)
    → 0 < d
    → (2 * (half_even n d * d) ≤ 2 * n + d) × (2 * n ≤ 2 * (half_even n d * d) + d)
unfolding half_even
half_even_bounds n d h = grind (arith, div-add-mod n d, mod-lt n h, mod-two (n / d))
