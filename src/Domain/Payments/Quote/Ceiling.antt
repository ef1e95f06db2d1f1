-- ===== src/Domain/Payments/Quote/Ceiling.antt =====
-- What a quote asks for.
use professional_bot.Prelude.{
  ℕ, zero, suc, ◌+◌, ◌-◌, ◌*◌, ◌^◌, ◌≤◌, ◌<◌, ◌≡◌, ◌⊎◌, refl, ◌∙◌, ap, subst, arith, false, leb, ok,
  Bool-cases, inl, inr, leb→le,
}
use native.Mathlib.Nat.{pow-suc, one-le-pow}
use professional_bot.Prelude.Int.{pos, sub_ℕ, leb_ℤ}
use professional_bot.Core.Money.{on_magnitude, quantize, round_up}
use professional_bot.Core.Money.Rounding.{round_up_bounds}
use professional_bot.Domain.Payments.Quote.{
  half_even, quotient_scale, divide, quote_expected_amount,
}

-- The nearest is off by less than a unit, on either side.
half_even_bounds : (d n : ℕ) → 0 < d → (half_even d n * d < n + d) × (n < half_even d n * d + d)
unfolding half_even
half_even_bounds d n h = grind arith

scale_found :
    (fuel t a b : ℕ)
    → 10 ^ 27 * b ≤ a * 10 ^ (t + fuel)
    → 10 ^ 27 * b ≤ a * 10 ^ quotient_scale fuel t a b
unfolding quotient_scale
scale_found zero t a b h = let e : t + 0 ≡ t = omega arith in rw e at h
scale_found (suc fuel) t a b h = elim (Bool-cases (leb (10 ^ 27 * b) (a * 10 ^ t))) [
  | inl here ↦ rw here (leb→le (10 ^ 27 * b) (a * 10 ^ t) here)
  | inr later ↦
      let e : t + suc fuel ≡ suc t + fuel = omega arith in
      rw later (scale_found fuel (suc t) a b (rw e at h))
]

-- A number between two multiples of `d`, less than one apart, is the quotient rounded up.
round_up_unique : (d n m : ℕ) → 0 < d → n ≤ m * d → m * d < n + d → round_up d n ≡ m
round_up_unique d n m h low high =
    let (at_least, below) = round_up_bounds d n h in
    let x = round_up d n in grind (arith, at_least, below, low, high)

mul_le : (x y b : ℕ) → x ≤ y → x * b ≤ y * b
mul_le x y b h = grind arith

cancel_factor : (x y b : ℕ) → x * b < y * b → x < y
cancel_factor x y b h = grind arith

shuffle : (m b s : ℕ) → (m * b) * s ≡ (m * s) * b
shuffle m b s = omega arith

-- Rounding the quotient of `n` times `s` by `b` to the nearest, and then the quotient by `s` up, is rounding the
-- quotient of `n` by `b` up, when `b` is at most `s`.
round_twice : (b s n : ℕ) → 0 < b → b ≤ s → round_up s (half_even b (n * s)) ≡ round_up b n
round_twice b s n positive fits =
    let c = half_even b (n * s) in
    let m = round_up b n in
    let (c_high, c_low) = half_even_bounds b (n * s) positive in
    let (m_high, m_low) = round_up_bounds b n positive in
    round_up_unique s c m (omega (arith, positive, fits)) (above b s n c m fits c_high m_high)
      (below b s n c m positive fits c_low m_low)
  where
    above : (b s n c m : ℕ) → b ≤ s → c * b < n * s + b → n ≤ m * b → c ≤ m * s
    above b s n c m fits h k =
        let p : n * s ≤ (m * b) * s = mul_le n (m * b) s k in
        let q = cancel_factor c (suc (m * s)) b (omega (arith, p, h, shuffle m b s)) in
        omega (arith, q)

    below : (b s n c m : ℕ) → 0 < b → b ≤ s → n * s < c * b + b → m * b < n + b → m * s < c + s
    below b s n c m positive fits h k =
        let p : suc (m * b) * s ≤ (n + b) * s = mul_le (suc (m * b)) (n + b) s k in
        cancel_factor (m * s) (c + s) b (omega (arith, p, h, fits, shuffle m b s))

pow_add : (d k : ℕ) → 10 ^ (d + k) ≡ 10 ^ d * 10 ^ k
pow_add d zero = let e : d + 0 ≡ d = omega arith in rw e (omega arith)
pow_add d (suc k) =
    let e : d + suc k ≡ suc (d + k) = omega arith in
    rw (e, pow-suc 10 (d + k), pow-suc 10 k, pow_add d k) (omega arith)

-- The scale that the division stops at is not below that of the asset, and the rate is at most what lies between.
scale_above :
    (a b d t : ℕ)
    → 0 < a
    → 0 < b
    → a * 10 ^ d ≤ 10 ^ 27
    → 10 ^ 27 * b ≤ a * 10 ^ t
    → (d ≤ t) × (b ≤ 10 ^ (t - d))
scale_above a b d t some_total positive small found = elim (split d t) [
  | inl above ↦
      let e : t ≡ d + (t - d) = omega arith in
      let p = pow_add d (t - d) in
      (above, fits (10 ^ (t - d)) (subst (λ x. 10 ^ 27 * b ≤ a * x) (ap (λ x. 10 ^ x) e ∙ p) found))
  | inr below ↦
      let e : d ≡ suc t + (d - suc t) = omega arith in
      let p = pow_add (suc t) (d - suc t) in
      absurd (
        too_small (10 ^ (d - suc t)) (one-le-pow (d - suc t) 10 (omega arith))
          (subst (λ x. a * x ≤ 10 ^ 27) (ap (λ x. 10 ^ x) e ∙ p) small))
]
  where
    split : (d t : ℕ) → (d ≤ t) ⊎ (t < d)
    split d t = ground arith

    fits : (s : ℕ) → 10 ^ 27 * b ≤ a * (10 ^ d * s) → b ≤ s
    fits s h = let p = mul_le (a * 10 ^ d) (10 ^ 27) s small in omega (arith, p, h)

    too_small : (s : ℕ) → 1 ≤ s → a * (10 ^ suc t * s) ≤ 10 ^ 27 → ⊥
    too_small s h k =
        let p = mul_le 1 s (a * 10 ^ t) h in
        let q = rw (pow-suc 10 t) at k in omega (arith, p, q, found, positive)

fuel_enough : (a b : ℕ) → 0 < a → b < 10 ^ 30 → 10 ^ 27 * b ≤ a * 10 ^ (0 + 57)
fuel_enough a b some_total column = omega arith

half_even_zero : (d : ℕ) → 0 < d → half_even d 0 ≡ 0
half_even_zero d h = let (high, low) = half_even_bounds d 0 h in grind (arith, high)

round_up_zero : (d : ℕ) → 0 < d → round_up d 0 ≡ 0
round_up_zero d h = let (low, high) = round_up_bounds d 0 h in grind (arith, high)

sub_zero : (x : ℕ) → sub_ℕ x 0 ≡ pos x
sub_zero x = ground arith

on_magnitude-pos : (f : ℕ → ℕ) (n : ℕ) → f 0 ≡ 0 → on_magnitude f (pos n) ≡ pos (f n)
on_magnitude-pos f n h = ap (sub_ℕ (f n)) h ∙ sub_zero (f n)

divide_pos :
    (a b : ℕ)
    → 0 < b
    → divide (pos a) b ≡ record {
      coef = pos (half_even b (a * 10 ^ quotient_scale 57 0 a b));
      scale = quotient_scale 57 0 a b;
    }
unfolding divide
divide_pos a b positive =
    let e : a + 0 ≡ a = omega arith in
    let t = quotient_scale 57 0 a b in
    let z : half_even b (0 * 10 ^ t) ≡ 0 =
      let e : 0 * 10 ^ t ≡ 0 = omega arith in rw e (half_even_zero b positive) in
    rw e (
      ap (λ c. record { coef = c; scale = t })
        (on_magnitude-pos (λ n. half_even b (n * 10 ^ t)) a z))

round_up_one : (c : ℕ) → round_up 1 c ≡ c
unfolding round_up
round_up_one c = omega arith

-- Rounding up to a scale that is not above the one there is.
quantize_pos :
    (c t d : ℕ)
    → d ≤ t
    → quantize round_up (record { coef = pos c; scale = t }) d ≡ pos (round_up (10 ^ (t - d)) c)
unfolding quantize
quantize_pos c t d h = elim (Bool-cases (leb t d)) [
  | inl same ↦
      let le = leb→le t d same in
      let z : t - d ≡ 0 = omega arith in
      let y : d - t ≡ 0 = omega arith in
      rw (same, z, y, round_up_one c)
        (on_magnitude-pos (λ n. n * 10 ^ 0) c (omega arith) ∙ ap pos (omega arith))
  | inr above ↦ rw above (
      on_magnitude-pos (round_up (10 ^ (t - d))) c
        (round_up_zero (10 ^ (t - d)) (one-le-pow (t - d) 10 (omega arith))))
]

quantized :
    (a b d : ℕ)
    → 0 < a
    → 0 < b
    → b < 10 ^ 30
    → a * 10 ^ d ≤ 10 ^ 27
    → quantize round_up (divide (pos a) b) d ≡ pos (round_up b (a * 10 ^ d))
quantized a b d some_total positive column small =
    let t = quotient_scale 57 0 a b in
    let found = scale_found 57 0 a b (fuel_enough a b some_total column) in
    let (above, fits) = scale_above a b d t some_total positive small found in
    let e : t ≡ d + (t - d) = omega arith in
    let power : a * 10 ^ t ≡ (a * 10 ^ d) * 10 ^ (t - d) =
      rw (ap (λ x. 10 ^ x) e ∙ pow_add d (t - d)) (omega arith) in
    rw (divide_pos a b positive) (
      quantize_pos (half_even b (a * 10 ^ t)) t d above
      ∙ ap (λ x. pos (round_up (10 ^ (t - d)) (half_even b x))) power
      ∙ ap pos (round_twice b (10 ^ (t - d)) (a * 10 ^ d) positive fits))

round_up_small : (b n : ℕ) → 0 < b → n ≤ 10 ^ 27 → round_up b n < 10 ^ 28
round_up_small b n positive small =
    let (low, high) = round_up_bounds b n positive in
    let m = round_up b n in
    let q = cancel_factor m (suc n) b (grind (arith, high, positive)) in omega (arith, q, small)

-- Where the total is `a` units of 10^-8, `a` is positive, `a` times 10^decimals is at most 10^27, and the rate is a positive
-- number of a column, the quote is the exact quotient of total and rate, rounded up at the precision of the asset: the
-- division in 28 digits does not show.
pub quote_expected_amount-round_up :
    (a b d : ℕ)
    → 0 < a
    → 0 < b
    → b < 10 ^ 30
    → a * 10 ^ d ≤ 10 ^ 27
    → quote_expected_amount (pos a) (pos b) d
      ≡ ok (record { coef = pos (round_up b (a * 10 ^ d)); scale = d })
unfolding quote_expected_amount
quote_expected_amount-round_up a b d some_total positive column small =
    let m = round_up b (a * 10 ^ d) in
    let rate : leb_ℤ (pos b) (pos 0) ≡ false = ground (arith, positive) in
    let fits : leb (10 ^ 28) (m + 0) ≡ false =
      let h = round_up_small b (a * 10 ^ d) positive small in ground (arith, h) in
    rw (rate, quantized a b d some_total positive column small, fits) refl
