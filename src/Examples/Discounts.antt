-- ===== src/Examples/Discounts.antt =====
-- A coupon of 10 per cent, at most 3, on a purchase of 20.
use professional_bot.Prelude.{◌≡◌, refl, true, false, [], ◌∷◌, none, some, ok}
use professional_bot.Prelude.Int.{ℤ, pos, ◌-ℤ◌, ◌*ℤ◌}
use professional_bot.Prelude.Text.{codes, text_eqb, upper, strip}
use professional_bot.Core.Money.{quantize, half_up}
use professional_bot.Domain.Coupons.{
  Coupon, percentage, CouponBooks, Purchase, CouponEvaluation, raw_discount, compute_discount,
  get_by_code, find_code, check_terms, usage_count_for_user, evaluate_coupon, evaluate,
}
use professional_bot.Domain.Coupons.Discount.{Applies, evaluate-Applies}

abbrev pub coupon : Coupon
coupon = record {
  id = 1;
  code = codes "TEN";
  coupon_type = percentage;
  value = pos 1000000000;
  currency = codes "USDT";
  max_discount = some (pos 300000000);
  min_order_amount = pos 500000000;
  max_redemptions = some 100;
  max_redemptions_per_user = 1;
  redemptions_count = 0;
  starts_at = none;
  expires_at = some 1000;
  is_active = true;
  product_ids = [];
  category_ids = 4 ∷ 5 ∷ [];
  reseller_only = false;
}

abbrev purchase : Purchase
purchase = record {
  user_id = 9;
  subtotal = pos 2000000000;
  currency = codes "USDT";
  product_id = some 2;
  category_id = some 5;
  is_reseller = false;
}

abbrev pub books : CouponBooks
books = record { coupons = coupon ∷ []; usages = [] }

abbrev two : ℤ
two = pos 200000000

abbrev evaluation : CouponEvaluation
evaluation = record { coupon = coupon; discount = two; new_total = pos 1800000000 }

evaluates : evaluate 10 (codes " ten ") purchase books ≡ ok evaluation
unfolding evaluate get_by_code find_code upper strip text_eqb evaluate_coupon check_terms
    usage_count_for_user compute_discount raw_discount quantize half_up ◌*ℤ◌ ◌-ℤ◌
evaluates = refl

evaluate-Applies_example :
    (c : Coupon) × (get_by_code (codes " ten ") (coupon ∷ []) ≡ some c)
    × Applies 10 c purchase [] evaluation
evaluate-Applies_example = evaluate-Applies 10 (codes " ten ") purchase books evaluation evaluates
