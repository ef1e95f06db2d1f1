-- ===== src/Domain/Coupons/Discount.antt =====
-- What a discount comes to, and what an accepted coupon satisfies.
use professional_bot.Prelude.{
  ℕ, ◌^◌, ◌<◌, ◌≡◌, ◌⊎◌, refl, subst, true, false, List, [], ◌∷◌, Option, none, some, arith, ok,
  err, >>=-eq-ok, ok-injective, raise_if, raise_if-eq-ok, coupon_error, leb,
}
use professional_bot.Prelude.Int.{ℤ, pos, negsuc, neg_part, ◌≤ℤ◌, ◌<ℤ◌, ◌-ℤ◌, ◌*ℤ◌, leb_ℤ}
use professional_bot.Prelude.Text.{Text, text_eq, is_empty}
use professional_bot.Core.Money.{quantize, half_up, on_magnitude}
use professional_bot.Domain.Coupons.{
  Coupon, CouponType, percentage, fixed, CouponUsage, CouponBooks, CouponEvaluation, Purchase,
  raw_discount, compute_discount, cap, min_ℤ, get_by_code, check_terms, evaluate_coupon, evaluate,
  usage_count_for_user, reached, before, excludes,
}

half_up_zero : (d : ℕ) → 0 < d → half_up d 0 ≡ 0
unfolding half_up
half_up_zero d h = grind arith

pub times_nonneg : (a b : ℤ) → pos 0 ≤ℤ a → pos 0 ≤ℤ b → neg_part (a *ℤ b) ≡ 0
unfolding ◌*ℤ◌
times_nonneg (pos a) (pos b) h g = grind arith
times_nonneg (pos a) (negsuc b) h g = absurd (omega arith)
times_nonneg (negsuc a) b h g = absurd (omega arith)

magnitude_nonneg : (f : ℕ → ℕ) (c : ℤ) → f 0 ≡ 0 → neg_part c ≡ 0 → pos 0 ≤ℤ on_magnitude f c
magnitude_nonneg f (pos c) z h = rw z (ground arith)
magnitude_nonneg f (negsuc c) z h = absurd (omega arith)

raw_discount_nonneg :
    (c : Coupon) (subtotal : ℤ)
    → pos 0 ≤ℤ subtotal
    → pos 0 ≤ℤ c.value
    → pos 0 ≤ℤ raw_discount c subtotal
unfolding raw_discount quantize
raw_discount_nonneg c subtotal h g = go c.coupon_type
  where
    go :
        (t : CouponType)
        → pos 0 ≤ℤ (elim t [
          | percentage ↦ quantize half_up (record { coef = subtotal *ℤ c.value; scale = 18 }) 8
          | fixed ↦ c.value
        ])
    go percentage =
        magnitude_nonneg (half_up (10 ^ 10)) (subtotal *ℤ c.value)
          (half_up_zero (10 ^ 10) (omega arith)) (times_nonneg subtotal c.value h g)
    go fixed = g

-- A limit that is set is not negative.
abbrev pub NonNegative : Option ℤ → Type 0
NonNegative none = Unit {0}
NonNegative (some m) = pos 0 ≤ℤ m

abbrev pub Within : ℤ → Option ℤ → Type 0
Within d none = Unit {0}
Within d (some m) = d ≤ℤ m

bounded :
    (o : Option ℤ) (raw subtotal : ℤ)
    → pos 0 ≤ℤ raw
    → pos 0 ≤ℤ subtotal
    → NonNegative o
    → (pos 0 ≤ℤ min_ℤ (cap o raw) subtotal)
      × (min_ℤ (cap o raw) subtotal ≤ℤ subtotal)
      × Within (min_ℤ (cap o raw) subtotal) o
bounded none raw subtotal h g m = ground arith
bounded (some most) raw subtotal h g m = ground arith

-- For a subtotal, a value and a maximum that are not negative, the discount is not negative, at most
-- the subtotal, and at most the maximum, if there is one.
pub compute_discount_bounds :
    (c : Coupon) (subtotal : ℤ)
    → pos 0 ≤ℤ subtotal
    → pos 0 ≤ℤ c.value
    → NonNegative c.max_discount
    → (pos 0 ≤ℤ compute_discount c subtotal)
      × (compute_discount c subtotal ≤ℤ subtotal)
      × Within (compute_discount c subtotal) c.max_discount
unfolding compute_discount
compute_discount_bounds c subtotal h g m =
    bounded c.max_discount (raw_discount c subtotal) subtotal (raw_discount_nonneg c subtotal h g) h
      m

-- The terms of the coupon `c` that do not depend on the user's redemptions.
abbrev pub TermsHold : ℕ → Coupon → Purchase → Type 0
TermsHold now c p =
    (c.is_active ≡ true)
    × (before now c.starts_at ≡ false)
    × (reached now c.expires_at ≡ false)
    × ((c.currency ≡ []) ⊎ (c.currency ≡ p.currency))
    × ((c.reseller_only ≡ true) → (p.is_reseller ≡ true))
    × (c.min_order_amount ≤ℤ p.subtotal)
    × (excludes c.product_ids p.product_id ≡ false)
    × (excludes c.category_ids p.category_id ≡ false)
    × (reached c.redemptions_count c.max_redemptions ≡ false)

empty_or_not : (t : Text) → (is_empty t ≡ true) → t ≡ []
empty_or_not [] h = refl
empty_or_not (x ∷ t) h = absurd (cc h)

check_terms-TermsHold :
    (now : ℕ) (c : Coupon) (p : Purchase) {u : Unit {0}}
    → check_terms now c p ≡ ok u
    → TermsHold now c p
unfolding check_terms
check_terms-TermsHold now c p h =
    ground (arith, empty_or_not c.currency, text_eq.beq_iff c.currency p.currency)

-- What an accepted evaluation shows of the coupon `c` and the purchase.
pub record Applies (now : ℕ) (c : Coupon) (p : Purchase) (us : List CouponUsage)
    (e : CouponEvaluation) : Type 0 where
  pub in_terms : TermsHold now c p
  pub quota_left : usage_count_for_user c.id p.user_id us < c.max_redemptions_per_user
  pub same_coupon : e.coupon ≡ c
  pub is_discount : e.discount ≡ compute_discount c p.subtotal
  pub positive : pos 0 <ℤ e.discount
  pub total : e.new_total ≡ p.subtotal -ℤ e.discount

evaluate_coupon-Applies :
    (now : ℕ) (c : Coupon) (p : Purchase) (us : List CouponUsage) (e : CouponEvaluation)
    → evaluate_coupon now c p us ≡ ok e
    → Applies now c p us e
unfolding evaluate_coupon
evaluate_coupon-Applies now c p us e h =
    let (u, terms, g) = >>=-eq-ok (check_terms now c p) _ h in
    let spent = leb c.max_redemptions_per_user (usage_count_for_user c.id p.user_id us) in
    let void = leb_ℤ (compute_discount c p.subtotal) (pos 0) in
    let (v, left, g') = >>=-eq-ok (raise_if spent coupon_error) _ g in
    let (w, real, g'') = >>=-eq-ok (raise_if void coupon_error) _ g' in
    let unspent = raise_if-eq-ok spent coupon_error left in
    let sound = raise_if-eq-ok void coupon_error real in
    subst (Applies now c p us) (ok-injective g'') (record {
      in_terms = check_terms-TermsHold now c p terms;
      quota_left = ground arith;
      same_coupon = refl;
      is_discount = refl;
      positive = ground arith;
      total = refl;
    })

-- An evaluation that returns is of the coupon that the code names, whose terms hold for the purchase
-- and of which the user has redemptions left; its discount is that of `compute_discount` and
-- positive, and the new total is the subtotal less the discount.
pub evaluate-Applies :
    (now : ℕ) (code : Text) (p : Purchase) (b : CouponBooks) (e : CouponEvaluation)
    → evaluate now code p b ≡ ok e
    → (c : Coupon) × (get_by_code code b.coupons ≡ some c) × Applies now c p b.usages e
unfolding evaluate
evaluate-Applies now code p b e h = go (get_by_code code b.coupons) refl h
  where
    go :
        (o : Option Coupon)
        → get_by_code code b.coupons ≡ o
        → (elim o [ none ↦ err coupon_error | some c ↦ evaluate_coupon now c p b.usages ]) ≡ ok e
        → (c : Coupon) × (get_by_code code b.coupons ≡ some c) × Applies now c p b.usages e
    go none f g = absurd (cc g)
    go (some c) f g = (c, f, evaluate_coupon-Applies now c p b.usages e g)
