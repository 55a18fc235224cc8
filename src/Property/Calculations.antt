-- ===== src/Property/Calculations.antt =====
-- apps/properties/calculations.py. Decimals are integers scaled by their places: readings and
-- units by 10^3, multipliers and rates by 10^4. A product of the two has 7 places.
pub mod Rounding
use tenora.Base.{ℕ, suc, ◌+◌, ◌*◌, ◌/◌, Option, none, some, if◌then◌else◌}
use tenora.Base.Int.{ℤ, pos, negsuc, sub_ℕ, ◌-ℤ◌, ◌*ℤ◌, ltb_ℤ}

-- `quantize(..., rounding=ROUND_HALF_UP)` drops places, one unit of the result being `q` of the
-- value: to the nearest, ties away from zero.
unfoldable pub quantize_half_up : ℕ → ℤ → ℤ
quantize_half_up q (pos n) = pos ((n + q / 2) / q)
quantize_half_up q (negsuc n) = sub_ℕ 0 ((suc n + q / 2) / q)

-- From 7 places to the 3 of UNITS_QUANTUM, and to the 0 of MINOR_QUANTUM.
abbrev pub units_step : ℕ
units_step = 10_000

abbrev pub minor_step : ℕ
minor_step = 10_000_000

-- `none` is `NegativeConsumption`.
unfoldable pub consumption : ℤ → ℤ → Option ℤ
consumption opening closing = if ltb_ℤ closing opening then none else some (closing -ℤ opening)

unfoldable pub billed_units : ℤ → ℤ → ℤ → Option ℤ
unfolding consumption
billed_units opening closing multiplier = elim (consumption opening closing) [
  | none ↦ none
  | some used ↦ some (quantize_half_up units_step (used *ℤ multiplier))
]

unfoldable pub charge_cents : ℤ → ℤ → ℤ
charge_cents units rate = quantize_half_up minor_step (units *ℤ rate)
