-- ===== src/Property/Calculations/Rounding.antt =====
-- Rounding and the billing arithmetic of apps/properties/calculations.py.
use tenora.Base.{ℕ, ◌+◌, ◌*◌, ◌-◌, ◌/◌, ◌≤◌, ◌<◌, ◌≡◌, ◌↔◌, some, arith}
use tenora.Base.Int.{pos, ◌-ℤ◌, ◌*ℤ◌}
use tenora.Property.Calculations.{
  quantize_half_up, units_step, minor_step, billed_units, charge_cents,
}

-- Half up as a relation: `r` steps of `q` lie nearest to `n`, and above it at a tie.
abbrev pub IsNearest : ℕ → ℕ → ℕ → Type 0
IsNearest q n r = (2 * (q * r) ≤ 2 * n + q) × (2 * n < 2 * (q * r) + q)

sub_pos : (o c : ℕ) → o ≤ c → pos c -ℤ pos o ≡ pos (c - o)
unfolding ◌-ℤ◌
sub_pos o c h = ground arith

mul_pos : (a b : ℕ) → pos a *ℤ pos b ≡ pos (a * b)
unfolding ◌*ℤ◌
mul_pos a b = ground arith

-- The two roundings on values that are not negative.
units_rounding : (n : ℕ) → quantize_half_up units_step (pos n) ≡ pos ((n + 5_000) / 10_000)
unfolding quantize_half_up
units_rounding n = ground arith

minor_rounding : (n : ℕ) → quantize_half_up minor_step (pos n) ≡ pos ((n + 5_000_000) / 10_000_000)
unfolding quantize_half_up
minor_rounding n = ground arith

pub billed_units-pos :
    (o c m : ℕ)
    → o ≤ c
    → billed_units (pos o) (pos c) (pos m) ≡ some (pos (((c - o) * m + 5_000) / 10_000))
unfolding billed_units
billed_units-pos o c m h =
    ground (arith, sub_pos o c, mul_pos (c - o) m, units_rounding ((c - o) * m))

pub charge_cents-pos :
    (u r : ℕ) → charge_cents (pos u) (pos r) ≡ pos ((u * r + 5_000_000) / 10_000_000)
unfolding charge_cents
charge_cents-pos u r = rw (mul_pos u r) (minor_rounding (u * r))

-- For a closing reading that is not below the opening one, and a multiplier that is not negative,
-- the billed units are a number exactly when it is the thousandth nearest to consumption times
-- multiplier, halves upward.
pub billed_units-IsNearest :
    (o c m r : ℕ)
    → o ≤ c
    → (billed_units (pos o) (pos c) (pos m) ≡ some (pos r)) ↔ IsNearest units_step ((c - o) * m) r
billed_units-IsNearest o c m r h =
    (λ e. ground (arith, billed_units-pos o c m), λ n. ground (arith, billed_units-pos o c m))

-- For units and a rate that are not negative, the charge is a number exactly when it is the whole
-- minor unit nearest to their product, halves upward.
pub charge_cents-IsNearest :
    (u p r : ℕ) → (charge_cents (pos u) (pos p) ≡ pos r) ↔ IsNearest minor_step (u * p) r
charge_cents-IsNearest u p r =
    (λ e. ground (arith, charge_cents-pos u p), λ n. ground (arith, charge_cents-pos u p))
