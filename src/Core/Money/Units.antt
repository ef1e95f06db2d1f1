-- ===== src/Core/Money/Units.antt =====
-- Base units and back.
use professional_bot.Prelude.{
  ℕ, zero, suc, ◌+◌, ◌-◌, ◌*◌, ◌/◌, ◌%◌, ◌^◌, ◌≤◌, ◌≡◌, arith, ok, Bool-cases, nat_eqb, inl, inr,
  nat_eqb_iff, le→leb, ap, if◌then◌else◌,
}
use native.Mathlib.Nat.{pow-suc}
use professional_bot.Prelude.Int.{ℤ, pos, negsuc, neg, leb_ℤ, pos_part, neg_part}
use professional_bot.Core.Money.{base_units, from_base_units, trim, on_magnitude}

pow_step : (s t : ℕ) → t ≤ s → 10 ^ (suc s - t) ≡ 10 * 10 ^ (s - t)
pow_step s t h =
    let e : suc s - t ≡ suc (s - t) = omega arith in rw e (omega (arith, pow-suc 10 (s - t)))

trim_value : (s n : ℕ) → ((trim s n).1 ≤ s) × ((trim s n).0 * 10 ^ (s - (trim s n).1) ≡ n)
unfolding trim
trim_value zero n = omega arith
trim_value (suc s) n = elim (Bool-cases (nat_eqb (n % 10) 0)) [
  | inl whole ↦
      let (small, value) = trim_value s (n / 10) in
      rw whole (
        omega arith,
        rw (pow_step s (trim s (n / 10)).1 small)
            (omega (arith, value, (nat_eqb_iff (n % 10) 0).0 whole)),
      )
  | inr part ↦ rw part (omega arith, let e : suc s - suc s ≡ 0 = omega arith in rw e (omega arith))
]

-- The amount `signed` builds, at the units' own scale.
rescale :
    (units : ℤ) (n s d p : ℕ)
    → s ≤ d
    → n * p ≡ pos_part units + neg_part units
    → on_magnitude (λ k. k * p) (if leb_ℤ (pos 0) units then pos n else neg (pos n)) ≡ units
unfolding neg
rescale (pos u) n s d p h e = ground arith
rescale (negsuc u) n s d p h e = ground arith

-- Converting base units to an amount and back, at the same precision, gives the same base units.
pub base_units-from_base_units :
    (units : ℤ) (decimals : ℕ) → base_units (from_base_units units decimals) decimals ≡ ok units
unfolding base_units from_base_units
base_units-from_base_units units decimals =
    let m = pos_part units + neg_part units in
    let (small, value) = trim_value decimals m in
    rw (le→leb (trim decimals m).1 decimals small) (
      ap ok (
        rescale units (trim decimals m).0 (trim decimals m).1 decimals
          (10 ^ (decimals - (trim decimals m).1)) small value))
