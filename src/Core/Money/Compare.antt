-- ===== src/Core/Money/Compare.antt =====
-- `compare_amounts` against its specification.
use professional_bot.Prelude.{◌≡◌, arith}
use professional_bot.Prelude.Int.{ℤ, pos, ◌+ℤ◌, ◌-ℤ◌, ◌≤ℤ◌, ◌<ℤ◌, +ℤ_parts, -ℤ_parts, neg_parts}
use professional_bot.Core.Money.{
  Decimal, money_scale, quantize, half_up, quantize_money, AmountMatch, exact, underpaid, overpaid,
  classify, compare_amounts,
}

-- An amount in units of 10^-8, as `compare_amounts` sees it.
abbrev pub money_units : Decimal → ℤ
money_units d = quantize half_up d money_scale

-- What each answer says of the received amount `r`, the expected `e`, and the tolerances.
abbrev pub Verdict : ℤ → ℤ → ℤ → ℤ → AmountMatch → Type 0
Verdict e r under over exact = (e ≤ℤ r +ℤ under) × (r ≤ℤ e +ℤ over)
Verdict e r under over underpaid = r +ℤ under <ℤ e
Verdict e r under over overpaid = e +ℤ over <ℤ r

classify-Verdict :
    (e r under over : ℤ)
    → pos 0 ≤ℤ under
    → pos 0 ≤ℤ over
    → Verdict e r under over (classify e r under over)
unfolding classify
classify-Verdict e r under over hu ho =
    ground (arith, -ℤ_parts r e, neg_parts (r -ℤ e), +ℤ_parts r under, +ℤ_parts e over)

-- Where neither tolerance rounds to a negative amount, `compare_amounts` answers EXACT only for an
-- amount that, rounded to 8 places, lies between the expected amount less the underpayment
-- tolerance and the expected amount plus the overpayment tolerance, UNDERPAID only below that
-- range and OVERPAID only above it.
pub compare_amounts-Verdict :
    (expected received under over : Decimal)
    → pos 0 ≤ℤ money_units under
    → pos 0 ≤ℤ money_units over
    → Verdict
        (money_units expected)
        (money_units received)
        (money_units under)
        (money_units over)
        (compare_amounts expected received under over)
compare_amounts-Verdict expected received under over hu ho =
    unfold compare_amounts quantize_money in
    classify-Verdict (money_units expected) (money_units received) (money_units under)
      (money_units over) hu ho

classify_self : (e under over : ℤ) → classify e e under over ≡ exact
unfolding classify
classify_self e under over = ground (arith, -ℤ_parts e e)

-- Amounts that round to the same 8 places are EXACT, whatever the tolerances.
pub compare_amounts_rounded :
    (expected received under over : Decimal)
    → money_units received ≡ money_units expected
    → compare_amounts expected received under over ≡ exact
compare_amounts_rounded expected received under over h =
    unfold compare_amounts quantize_money in
    (rw h (classify_self (money_units expected) (money_units under) (money_units over)))
