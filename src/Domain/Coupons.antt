-- ===== src/Domain/Coupons.antt =====
-- `CouponService` of app/domain/coupons/service.py with `CouponRepository` of
-- app/db/repositories/orders.py. Amounts are in units of 10^-8, the scale of the columns; the limits
-- are not negative. A redemption that meets the UNIQUE constraint on the order rolls back, which is
-- modelled as writing nothing.
pub mod Discount
pub mod Redemptions
use professional_bot.Prelude.{
  ℕ, zero, suc, ◌+◌, ◌-◌, Bool, true, false, not, ◌&&◌, ◌||◌, List, [], ◌∷◌, ◌++◌, Option, none,
  some, ◌==◌, nat_eq, if◌then◌else◌, contains, is_some, ltb, leb, filter_by, length, any, Result,
  ok, err, ◌>>=◌, ◌>>◌, raise_if, coupon_error, map,
}
use professional_bot.Prelude.Int.{ℤ, pos, ◌-ℤ◌, ◌*ℤ◌, ltb_ℤ, leb_ℤ}
use professional_bot.Prelude.Text.{Text, text_eq, is_empty, upper, strip}
use professional_bot.Core.Money.{quantize, half_up, money_scale}

pub data CouponType : Type 0 where
  percentage fixed : CouponType

pub record Coupon : Type 0 where
  pub id : ℕ
  pub code : Text
  pub coupon_type : CouponType
  pub value : ℤ
  pub currency : Text
  pub max_discount : Option ℤ
  pub min_order_amount : ℤ
  pub max_redemptions : Option ℕ
  pub max_redemptions_per_user : ℕ
  pub redemptions_count : ℕ
  pub starts_at : Option ℕ
  pub expires_at : Option ℕ
  pub is_active : Bool
  pub product_ids : List ℕ
  pub category_ids : List ℕ
  pub reseller_only : Bool

pub record CouponUsage : Type 0 where
  pub coupon_id : ℕ
  pub user_id : ℕ
  pub order_id : ℕ
  pub discount_amount : ℤ
  pub reverted_at : Option ℕ

-- The two tables.
pub record CouponBooks : Type 0 where
  pub coupons : List Coupon
  pub usages : List CouponUsage

-- The order that a coupon is tried on.
pub record Purchase : Type 0 where
  pub user_id : ℕ
  pub subtotal : ℤ
  pub currency : Text
  pub product_id : Option ℕ
  pub category_id : Option ℕ
  pub is_reseller : Bool

pub record CouponEvaluation : Type 0 where
  pub coupon : Coupon
  pub discount : ℤ
  pub new_total : ℤ

unfoldable pub find_code : Text → List Coupon → Option Coupon
find_code code [] = none
find_code code (c ∷ cs) = let rest = find_code code cs in if c.code == code then some c else rest

unfoldable pub get_by_code : Text → List Coupon → Option Coupon
unfolding find_code upper strip
get_by_code code cs = find_code (upper (strip code)) cs

-- A usage that stands.
abbrev pub is_live : CouponUsage → Bool
is_live u = not (is_some u.reverted_at)

unfoldable pub usage_count_for_user : ℕ → ℕ → List CouponUsage → ℕ
usage_count_for_user coupon_id user_id us =
    length (filter_by (λ u. u.coupon_id == coupon_id && u.user_id == user_id && is_live u) us)

abbrev pub min_ℤ : ℤ → ℤ → ℤ
min_ℤ a b = if ltb_ℤ b a then b else a

unfoldable pub raw_discount : Coupon → ℤ → ℤ
raw_discount coupon subtotal = elim coupon.coupon_type [
  | percentage ↦
      quantize half_up (record { coef = subtotal *ℤ coupon.value; scale = 18 }) money_scale
  | fixed ↦ coupon.value
]

abbrev pub cap : Option ℤ → ℤ → ℤ
cap none raw = raw
cap (some most) raw = min_ℤ raw most

unfoldable pub compute_discount : Coupon → ℤ → ℤ
compute_discount coupon subtotal =
    min_ℤ (cap coupon.max_discount (raw_discount coupon subtotal)) subtotal

abbrev pub before : ℕ → Option ℕ → Bool
before now none = false
before now (some t) = ltb now t

abbrev pub reached : ℕ → Option ℕ → Bool
reached now none = false
reached now (some t) = leb t now

-- `ids and str(id) not in ids`
abbrev pub excludes : List ℕ → Option ℕ → Bool
excludes [] i = false
excludes (j ∷ ids) none = true
excludes (j ∷ ids) (some i) = not (contains (j ∷ ids) i)

-- The checks that do not read the usages, in the order of the code.
unfoldable pub check_terms : ℕ → Coupon → Purchase → Result (Unit {0})
check_terms now coupon p = do
  raise_if (not coupon.is_active) coupon_error
  raise_if (before now coupon.starts_at) coupon_error
  raise_if (reached now coupon.expires_at) coupon_error
  raise_if (not (is_empty coupon.currency) && not (coupon.currency == p.currency)) coupon_error
  raise_if (coupon.reseller_only && not p.is_reseller) coupon_error
  raise_if (ltb_ℤ p.subtotal coupon.min_order_amount) coupon_error
  raise_if (excludes coupon.product_ids p.product_id) coupon_error
  raise_if (excludes coupon.category_ids p.category_id) coupon_error
  raise_if (reached coupon.redemptions_count coupon.max_redemptions) coupon_error

unfoldable pub evaluate_coupon : ℕ → Coupon → Purchase → List CouponUsage → Result CouponEvaluation
evaluate_coupon now coupon p us = do
  check_terms now coupon p
  raise_if (leb coupon.max_redemptions_per_user (usage_count_for_user coupon.id p.user_id us))
      coupon_error
  let discount = compute_discount coupon p.subtotal
  raise_if (leb_ℤ discount (pos 0)) coupon_error
  ok (record { coupon = coupon; discount = discount; new_total = p.subtotal -ℤ discount })

unfoldable pub evaluate : ℕ → Text → Purchase → CouponBooks → Result CouponEvaluation
evaluate now code p books = elim (get_by_code code books.coupons) [
  | none ↦ err coupon_error
  | some coupon ↦ evaluate_coupon now coupon p books.usages
]

unfoldable pub used_for : ℕ → List CouponUsage → Bool
used_for order_id us = any (λ u. u.order_id == order_id) us

-- The UPDATE statements on a coupon's counter.
abbrev pub on_coupon : ℕ → (ℕ → ℕ) → List Coupon → List Coupon
on_coupon i f [] = []
on_coupon i f (c ∷ cs) =
    (if c.id == i then record c { redemptions_count = f c.redemptions_count } else c)
    ∷ on_coupon i f cs

abbrev pub new_usage : Coupon → ℕ → ℕ → ℤ → CouponUsage
new_usage coupon user_id order_id discount = record {
  coupon_id = coupon.id;
  user_id = user_id;
  order_id = order_id;
  discount_amount = discount;
  reverted_at = none;
}

-- `redeem`: whether the redemption was recorded, and the tables.
unfoldable pub redeem : Coupon → ℕ → ℕ → ℤ → CouponBooks → Bool × CouponBooks
unfolding used_for
redeem coupon user_id order_id discount books =
    if used_for order_id books.usages then (false, books) else (
      true,
      record {
        coupons = on_coupon coupon.id suc books.coupons;
        usages = books.usages ++ new_usage coupon user_id order_id discount ∷ [];
      },
    )

-- The usage of the order that stands, and the table in which it is reverted.
unfoldable pub give_back : ℕ → ℕ → List CouponUsage → Option ℕ × List CouponUsage
give_back now order_id [] = (none, [])
give_back now order_id (u ∷ us) =
    let rest = give_back now order_id us in
    if u.order_id == order_id && is_live u
    then (some u.coupon_id, record u { reverted_at = some now } ∷ us)
    else (rest.0, u ∷ rest.1)

abbrev pub lower_count : Option ℕ → List Coupon → List Coupon
lower_count none cs = cs
lower_count (some i) cs = on_coupon i (λ n. n - 1) cs

unfoldable pub revert : ℕ → ℕ → CouponBooks → CouponBooks
unfolding give_back
revert now order_id books =
    let (coupon_id, usages) = give_back now order_id books.usages in
    record { coupons = lower_count coupon_id books.coupons; usages = usages }
