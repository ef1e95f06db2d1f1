-- ===== src/Domain/Payments/Quote.antt =====
-- `quote_expected_amount` of app/domain/payments/verification.py, with the division of Python's decimals: to the nearest in
-- 28 digits, ties to even. The total and the rate are amounts of a column, in units of 10^-8, so that their quotient is that
-- of the two numbers.
pub mod Ceiling
use professional_bot.Prelude.{
  ℕ, zero, suc, ◌+◌, ◌*◌, ◌/◌, ◌%◌, ◌^◌, leb, ltb, if◌then◌else◌, Result, ok, err, value_error,
  invalid_operation,
}
use professional_bot.Prelude.Int.{ℤ, pos, pos_part, neg_part, leb_ℤ}
use professional_bot.Core.Money.{Decimal, on_magnitude, quantize, round_up}

-- ROUND_HALF_EVEN of `n / d`: to the nearest, ties to the even number.
unfoldable pub half_even : ℕ → ℕ → ℕ
half_even d n =
    let q = n / d in
    let r = n % d in if ltb (2 * r) d then q else if ltb d (2 * r) then q + 1 else q + q % 2

-- The scale at which the quotient of `a` and `b` has 28 digits, from `t` on.
unfoldable pub quotient_scale : ℕ → ℕ → ℕ → ℕ → ℕ
quotient_scale zero t a b = t
quotient_scale (suc fuel) t a b =
    let rest = quotient_scale fuel (suc t) a b in if leb (10 ^ 27 * b) (a * 10 ^ t) then t else rest

-- A column has 30 digits, so the scale is at most 57.
abbrev pub scale_fuel : ℕ
scale_fuel = 57

-- `order_amount / quote_rate`. A quotient of more than 28 digits before the point keeps them; it is refused below.
unfoldable pub divide : ℤ → ℕ → Decimal
divide amount rate =
    let t = quotient_scale scale_fuel 0 (pos_part amount + neg_part amount) rate in
    record { coef = on_magnitude (λ n. half_even rate (n * 10 ^ t)) amount; scale = t }

-- `quantize` raises InvalidOperation on a result of more than 28 digits.
unfoldable pub quote_expected_amount : ℤ → ℤ → ℕ → Result Decimal
quote_expected_amount order_amount quote_rate decimals =
    if leb_ℤ quote_rate (pos 0)
    then err value_error
    else let e = quantize round_up (divide order_amount (pos_part quote_rate)) decimals in
      if leb (10 ^ 28) (pos_part e + neg_part e)
      then err invalid_operation
      else ok (record { coef = e; scale = decimals })
