-- ===== src/Core/Money.antt =====
-- app/core/money.py: exact amounts. A `Decimal` is `coef / 10 ^ scale`; the arithmetic context,
-- which rounds results of more than 28 digits, and in which `quantize` raises beyond them, is not modelled.
pub mod Rounding
pub mod Units
pub mod Compare
use professional_bot.Prelude.{
  ℕ, zero, suc, ◌+◌, ◌-◌, ◌*◌, ◌/◌, ◌%◌, ◌^◌, Bool, true, false, leb, nat_eqb, if◌then◌else◌,
  Result, ok, err, value_error,
}
use professional_bot.Prelude.Int.{
  ℤ, pos, sub_ℕ, pos_part, neg_part, ◌-ℤ◌, ◌*ℤ◌, neg, ltb_ℤ, leb_ℤ, eqb_ℤ,
}

pub record Decimal : Type 0 where
  pub coef : ℤ
  pub scale : ℕ

abbrev pub money_scale : ℕ
money_scale = 8

pub data AmountMatch : Type 0 where
  exact underpaid overpaid : AmountMatch

-- `f` on the magnitude, the sign kept; `f 0` is 0 in every use.
abbrev pub on_magnitude : (ℕ → ℕ) → ℤ → ℤ
on_magnitude f c = sub_ℕ (f (pos_part c)) (f (neg_part c))

-- `a < b`, which is exact.
abbrev pub ltb_decimal : Decimal → Decimal → Bool
ltb_decimal a b = ltb_ℤ (a.coef *ℤ pos (10 ^ b.scale)) (b.coef *ℤ pos (10 ^ a.scale))

-- ROUND_HALF_UP of `n / d`: to the nearest, ties away from zero.
unfoldable pub half_up : ℕ → ℕ → ℕ
half_up d n = (2 * n + d) / (2 * d)

-- ROUND_UP of `n / d`: away from zero.
unfoldable pub round_up : ℕ → ℕ → ℕ
round_up d n = (n + d - 1) / d

-- `dec.quantize(Decimal(1).scaleb(-scale), rounding=…)`, as the coefficient at `scale`.
unfoldable pub quantize : (ℕ → ℕ → ℕ) → Decimal → ℕ → ℤ
quantize rounding dec scale =
    if leb dec.scale scale
    then on_magnitude (λ n. n * 10 ^ (scale - dec.scale)) dec.coef
    else on_magnitude (rounding (10 ^ (dec.scale - scale))) dec.coef

unfoldable pub quantize_money : Decimal → ℕ → Decimal
unfolding quantize
quantize_money dec scale = record { coef = quantize half_up dec scale; scale = scale }

unfoldable pub base_units : Decimal → ℕ → Result ℤ
base_units dec decimals =
    if leb dec.scale decimals
    then ok (on_magnitude (λ n. n * 10 ^ (decimals - dec.scale)) dec.coef)
    else let d = 10 ^ (dec.scale - decimals) in
      if nat_eqb ((pos_part dec.coef + neg_part dec.coef) % d) 0
      then ok (on_magnitude (λ n. n / d) dec.coef)
      else err value_error

-- `normalize() + Decimal(0)`: the least scale, not below 0, at which the value is exact.
unfoldable pub trim : ℕ → ℕ → ℕ × ℕ
trim zero n = (n, 0)
trim (suc s) n = let rest = trim s (n / 10) in if nat_eqb (n % 10) 0 then rest else (n, suc s)

abbrev signed : ℤ → ℕ × ℕ → Decimal
signed units (n, s) = record {
  coef = if leb_ℤ (pos 0) units then pos n else neg (pos n);
  scale = s;
}

unfoldable pub from_base_units : ℤ → ℕ → Decimal
unfolding trim neg
from_base_units units decimals = signed units (trim decimals (pos_part units + neg_part units))

-- The comparison of `compare_amounts`, on amounts and tolerances already quantised.
unfoldable pub classify : ℤ → ℤ → ℤ → ℤ → AmountMatch
classify expected received under over =
    let delta = received -ℤ expected in
    if eqb_ℤ delta (pos 0)
    then exact
    else if ltb_ℤ delta (pos 0)
    then (if leb_ℤ (neg delta) under then exact else underpaid)
    else if leb_ℤ delta over
    then exact
    else overpaid

unfoldable pub compare_amounts : Decimal → Decimal → Decimal → Decimal → AmountMatch
unfolding quantize_money classify
compare_amounts expected received underpayment_tolerance overpayment_tolerance =
    classify (quantize_money expected money_scale).coef (quantize_money received money_scale).coef
      (quantize_money underpayment_tolerance money_scale).coef
      (quantize_money overpayment_tolerance money_scale).coef
