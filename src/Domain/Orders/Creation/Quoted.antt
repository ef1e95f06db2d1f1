-- ===== src/Domain/Orders/Creation/Quoted.antt =====
-- `quote` of app/domain/orders/service.py: what a price that is quoted comes from.
use professional_bot.Prelude.{
  ℕ, ◌≡◌, refl, sym, subst, Bool, true, false, not, List, [], ◌∷◌, In, Option, none, some, arith,
  ok, Bool-cases, inl, inr, >>=-eq-ok, ok-injective, raise_if, raise_if-eq-ok, validation, ◌==◌,
  if◌then◌else◌,
}
use professional_bot.Prelude.Int.{ℤ, pos, negsuc, ◌≤ℤ◌, ◌-ℤ◌, ◌*ℤ◌, -ℤ_parts}
use professional_bot.Prelude.Text.{Text, text_eq}
use professional_bot.Core.Money.{quantize}
use professional_bot.Domain.Catalog.{Product}
use professional_bot.Domain.Coupons.{
  Coupon, CouponBooks, Purchase, evaluate, find_code, get_by_code,
}
use professional_bot.Domain.Coupons.Discount.{
  times_nonneg, NonNegative, compute_discount_bounds, evaluate-Applies,
}
use professional_bot.Domain.Enums.ProductStatus
use professional_bot.Domain.Enums.ProductStatus.{product_status_eq}
use professional_bot.Domain.Inventory.{Stock}
use professional_bot.Domain.Inventory.Availability.{
  assert_purchasable, Purchasable, assert_purchasable-Purchasable,
}
use professional_bot.Domain.Orders.Creation.{
  money, PricingQuote, price_or, unit_price_of, priced, with_coupon, quote,
}

pub money-id : (x : ℤ) → money x ≡ x
unfolding money quantize
money-id (pos n) = ground arith
money-id (negsuc n) = ground arith

-- The prices of a product and the values of the coupons are not negative.
abbrev pub ArePrices : Product → List Coupon → Type 0
ArePrices p cs =
    (pos 0 ≤ℤ p.price)
    × NonNegative p.reseller_price
    × ((c : Coupon) → In c cs → (pos 0 ≤ℤ c.value) × NonNegative c.max_discount)

-- The amounts of a quote for `quantity` items.
pub record Amounts (product : Product) (quantity : ℕ) (is_reseller : Bool) (q : PricingQuote)
    : Type 0 where
  pub of_product : q.product ≡ product
  pub of_quantity : q.quantity ≡ quantity
  pub unit :
      q.unit_price
      ≡ (if is_reseller then price_or product.price product.reseller_price else product.price)
  pub subtotal : q.subtotal ≡ q.unit_price *ℤ pos quantity
  pub discount_positive : pos 0 ≤ℤ q.discount
  pub discount_within : q.discount ≤ℤ q.subtotal
  pub total : q.total ≡ q.subtotal -ℤ q.discount
  pub total_positive : pos 0 ≤ℤ q.total
  pub uncoupled : q.coupon_id ≡ none → q.discount ≡ pos 0

find_code-In : (code : Text) (cs : List Coupon) (c : Coupon) → find_code code cs ≡ some c → In c cs
unfolding find_code
find_code-In code [] c h = absurd (cc h)
find_code-In code (x ∷ cs) c h = elim (Bool-cases (x.code == code)) [
  | inl hit ↦ inl (sym (some_injective (rw hit at h)))
  | inr miss ↦ inr (find_code-In code cs c (rw miss at h))
]
  where
    some_injective : {a b : Coupon} → some a ≡ some b → a ≡ b
    some_injective h = cc h

get_by_code-In :
    (code : Text) (cs : List Coupon) (c : Coupon) → get_by_code code cs ≡ some c → In c cs
unfolding get_by_code
get_by_code-In code cs c h = find_code-In _ cs c h

unit_nonneg :
    (p : Product) (cs : List Coupon) (r : Bool)
    → ArePrices p cs
    → pos 0 ≤ℤ (if r then price_or p.price p.reseller_price else p.price)
unit_nonneg p cs false h = h.0
unit_nonneg p cs true h = either p.reseller_price h.1
  where
    either : (o : Option ℤ) → NonNegative o → pos 0 ≤ℤ price_or p.price o
    either none g = h.0
    either (some x) g = g

unit_price-eq :
    (p : Product) (r : Bool)
    → unit_price_of p r ≡ (if r then price_or p.price p.reseller_price else p.price)
unfolding unit_price_of
unit_price-eq p false = money-id p.price
unit_price-eq p true = money-id (price_or p.price p.reseller_price)

difference_nonneg : (a b : ℤ) → b ≤ℤ a → pos 0 ≤ℤ a -ℤ b
difference_nonneg a b h = omega (arith, -ℤ_parts a b)

product_nonneg : (a : ℤ) (n : ℕ) → pos 0 ≤ℤ a → pos 0 ≤ℤ a *ℤ pos n
product_nonneg a n h = let z = times_nonneg a (pos n) h (omega arith) in omega arith

priced-Amounts :
    (p : Product) (cs : List Coupon) (r : Bool) (n : ℕ) (discount : ℤ) (code : Option Text)
    (id : Option ℕ)
    → ArePrices p cs
    → pos 0 ≤ℤ discount
    → discount ≤ℤ money (unit_price_of p r *ℤ pos n)
    → (id ≡ none → discount ≡ pos 0)
    → Amounts p n r
        (priced p n (unit_price_of p r) (money (unit_price_of p r *ℤ pos n)) discount code id)
priced-Amounts p cs r n d code id prices low high free = record {
  of_product = refl;
  of_quantity = refl;
  unit = unit_price-eq p r;
  subtotal = money-id (unit_price_of p r *ℤ pos n);
  discount_positive = low;
  discount_within = high;
  total = money-id (money (unit_price_of p r *ℤ pos n) -ℤ d);
  total_positive =
      rw (money-id (money (unit_price_of p r *ℤ pos n) -ℤ d)) (difference_nonneg _ d high);
  uncoupled = free;
}

subtotal_nonneg :
    (p : Product) (cs : List Coupon) (r : Bool) (n : ℕ)
    → ArePrices p cs
    → pos 0 ≤ℤ money (unit_price_of p r *ℤ pos n)
subtotal_nonneg p cs r n h =
    rw (money-id (unit_price_of p r *ℤ pos n), unit_price-eq p r)
      (product_nonneg _ n (unit_nonneg p cs r h))

without_coupon :
    (p : Product) (cs : List Coupon) (r : Bool) (n : ℕ)
    → ArePrices p cs
    → Amounts p n r
        (priced p n (unit_price_of p r) (money (unit_price_of p r *ℤ pos n)) (pos 0) none none)
without_coupon p cs r n h =
    priced-Amounts p cs r n (pos 0) none none h (omega arith) (subtotal_nonneg p cs r n h)
      (λ _. refl)

with_coupon-Amounts :
    (now : ℕ) (p : Product) (n : ℕ) (r : Bool) (user : Option ℕ) (code : Option Text)
    (books : CouponBooks) (q : PricingQuote)
    → ArePrices p books.coupons
    → with_coupon now p n (unit_price_of p r) (money (unit_price_of p r *ℤ pos n)) r user code books
      ≡ ok q
    → Amounts p n r q
with_coupon-Amounts now p n r none code books q h g =
    subst (Amounts p n r) (ok-injective g) (without_coupon p books.coupons r n h)
with_coupon-Amounts now p n r (some u) none books q h g =
    subst (Amounts p n r) (ok-injective g) (without_coupon p books.coupons r n h)
with_coupon-Amounts now p n r (some u) (some []) books q h g =
    subst (Amounts p n r) (ok-injective g) (without_coupon p books.coupons r n h)
with_coupon-Amounts now p n r (some u) (some (c ∷ code)) books q h g =
    let subtotal = money (unit_price_of p r *ℤ pos n) in
    let purchase : Purchase = record {
      user_id = u;
      subtotal = subtotal;
      currency = p.currency;
      product_id = some p.id;
      category_id = p.category_id;
      is_reseller = r;
    } in
    let (e, found, done) = >>=-eq-ok (evaluate now (c ∷ code) purchase books) _ g in
    let (coupon, named, applies) = evaluate-Applies now (c ∷ code) purchase books e found in
    let (value, most) = h.2 coupon (get_by_code-In (c ∷ code) books.coupons coupon named) in
    let (low, high, rest) =
      compute_discount_bounds coupon subtotal (subtotal_nonneg p books.coupons r n h) value most in
    subst (Amounts p n r) (ok-injective done) (
      priced-Amounts p books.coupons r n e.discount (some e.coupon.code) (some e.coupon.id) h
        (rw applies.is_discount low) (rw applies.is_discount high) (λ z. absurd (cc z)))

-- Where the prices of the product and the values of the coupons are not negative, a quote that returns
-- is of an active product that may be purchased in the quantity; the unit price is the product's, or
-- a reseller's where one is set, the subtotal is that price times the quantity, the discount is from
-- nothing up to the subtotal, nothing without a coupon, and the total, which is not negative, is the
-- subtotal less the discount.
pub quote-Amounts :
    (coupons_enabled : Bool) (now : ℕ) (product : Product) (quantity : ℕ) (user_id : Option ℕ)
    (coupon_code : Option Text) (is_reseller : Bool) (stock : Stock) (books : CouponBooks)
    (q : PricingQuote)
    → ArePrices product books.coupons
    → quote coupons_enabled now product quantity user_id coupon_code is_reseller stock books ≡ ok q
    → (product.status ≡ ProductStatus.active)
      × Purchasable product quantity stock
      × Amounts product quantity is_reseller q
unfolding quote
quote-Amounts enabled now p n u code r stock books q h g =
    let inactive = not (p.status == ProductStatus.active) in
    let (a, ea, ga) = >>=-eq-ok (raise_if inactive validation) _ g in
    let (b, eb, gb) = >>=-eq-ok (assert_purchasable p n stock) _ ga in
    (
      ground (
        arith,
        raise_if-eq-ok inactive validation ea,
        product_status_eq.beq_iff p.status ProductStatus.active,
      ),
      assert_purchasable-Purchasable p n stock eb,
      with_coupon-Amounts now p n r u (if enabled then code else none) books q h gb,
    )
