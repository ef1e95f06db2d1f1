-- ===== src/Core/Money/Rounding.antt =====
-- The two rounding modes of app/core/money.py and app/domain/payments/verification.py.
use professional_bot.Prelude.{ℕ, ◌+◌, ◌*◌, ◌≤◌, ◌<◌, arith}
use professional_bot.Core.Money.{half_up, round_up}

-- ROUND_HALF_UP by a positive divisor is off by at most half a unit, and a tie goes up: `half_up d n`
-- times `d` is at most `n + d / 2` and more than `n - d / 2`.
pub half_up_bounds :
    (d n : ℕ) → 0 < d → (2 * (half_up d n * d) ≤ 2 * n + d) × (2 * n < 2 * (half_up d n * d) + d)
unfolding half_up
half_up_bounds d n h = grind arith

-- ROUND_UP by a positive divisor does not come below, and is off by less than a unit.
pub round_up_bounds : (d n : ℕ) → 0 < d → (n ≤ round_up d n * d) × (round_up d n * d < n + d)
unfolding round_up
round_up_bounds d n h = grind arith
