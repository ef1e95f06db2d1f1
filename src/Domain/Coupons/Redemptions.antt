-- ===== src/Domain/Coupons/Redemptions.antt =====
-- The counters of app/db/repositories/orders.py's coupons and the redemptions that stand.
use professional_bot.Prelude.{
  ℕ, suc, ◌+◌, ◌-◌, ◌≡◌, ◌≢◌, refl, ◌∙◌, ap, Bool, true, false, ◌&&◌, ◌||◌, List, [], ◌∷◌, ◌++◌,
  Option, none, some, arith, All, Bool-cases, inl, inr, if◌then◌else◌, ◌==◌, nat_eq, nat_eqb_iff,
}
use professional_bot.Prelude.Int.{ℤ}
use professional_bot.Domain.Coupons.{
  Coupon, CouponUsage, CouponBooks, is_live, used_for, on_coupon, new_usage, redeem, give_back,
  lower_count, revert,
}

-- The redemptions of coupon `i` that stand.
unfoldable pub live : ℕ → List CouponUsage → ℕ
live i [] = 0
live i (u ∷ us) = let rest = live i us in if u.coupon_id == i && is_live u then suc rest else rest

abbrev pub IsBalanced : CouponBooks → Type 0
IsBalanced b = All (λ c. c.redemptions_count ≡ live c.id b.usages) b.coupons

abbrev one_if : Bool → ℕ
one_if true = 1
one_if false = 0

live-append :
    (i : ℕ) (us : List CouponUsage) (v : CouponUsage)
    → live i (us ++ v ∷ []) ≡ live i us + one_if (v.coupon_id == i && is_live v)
unfolding live
live-append i [] v = ground arith
live-append i (u ∷ us) v = ground (arith, live-append i us v)

one_more :
    (c : Coupon) (user_id order_id : ℕ) (d : ℤ) (j : ℕ) (us : List CouponUsage)
    → (if j == c.id then suc (live j us) else live j us)
      ≡ live j (us ++ new_usage c user_id order_id d ∷ [])
one_more c user_id order_id d j us = ground (
  arith,
  nat_eqb_iff j c.id,
  nat_eqb_iff c.id j,
  live-append j us (new_usage c user_id order_id d),
)

-- Changing the counters of one coupon, from what `h` counts to what `h'` counts.
on_coupon-All :
    (i : ℕ) (f h h' : ℕ → ℕ)
    → ((j : ℕ) → (if j == i then f (h j) else h j) ≡ h' j)
    → (cs : List Coupon) → All (λ c. c.redemptions_count ≡ h c.id) cs
    → All (λ c. c.redemptions_count ≡ h' c.id) (on_coupon i f cs)
on_coupon-All i f h h' step [] a = tt
on_coupon-All i f h h' step (c ∷ cs) a =
    (counted (c.id == i) (step c.id), on_coupon-All i f h h' step cs a.1)
  where
    counted :
        (b : Bool)
        → (if b then f (h c.id) else h c.id) ≡ h' c.id
        → (if b
            then record c { redemptions_count = f c.redemptions_count }
            else c).redemptions_count
          ≡ h' (if b then record c { redemptions_count = f c.redemptions_count } else c).id
    counted true e = ap f a.0 ∙ e
    counted false e = a.0 ∙ e

same-All :
    (h h' : ℕ → ℕ)
    → ((j : ℕ) → h j ≡ h' j)
    → (cs : List Coupon) → All (λ c. c.redemptions_count ≡ h c.id) cs
    → All (λ c. c.redemptions_count ≡ h' c.id) cs
same-All h h' step [] a = tt
same-All h h' step (c ∷ cs) a = (a.0 ∙ step c.id, same-All h h' step cs a.1)

-- Recording a redemption keeps every coupon's counter equal to the number of its redemptions that
-- stand, whether or not the order had one before.
pub redeem-IsBalanced :
    (c : Coupon) (user_id order_id : ℕ) (d : ℤ) (b : CouponBooks)
    → IsBalanced b
    → IsBalanced (redeem c user_id order_id d b).1
unfolding redeem
redeem-IsBalanced c user_id order_id d b h = elim (Bool-cases (used_for order_id b.usages)) [
  | inl used ↦ rw used h
  | inr new ↦ rw new (
      on_coupon-All c.id suc (λ j. live j b.usages)
        (λ j. live j (b.usages ++ new_usage c user_id order_id d ∷ []))
        (λ j. one_more c user_id order_id d j b.usages) b.coupons h)
]

abbrev taken : ℕ → Option ℕ → ℕ
taken j none = 0
taken j (some i) = one_if (i == j)

give_back-live :
    (now order_id j : ℕ) (us : List CouponUsage)
    → live j us ≡ live j (give_back now order_id us).1 + taken j (give_back now order_id us).0
unfolding live give_back
give_back-live now order_id j [] = refl
give_back-live now order_id j (u ∷ us) = elim (Bool-cases (u.order_id == order_id && is_live u)) [
  | inl here ↦ rw here (ground arith)
  | inr there ↦ rw there (ground (arith, give_back-live now order_id j us))
]

lower_count-All :
    (o : Option ℕ) (h h' : ℕ → ℕ)
    → ((j : ℕ) → h j ≡ h' j + taken j o)
    → (cs : List Coupon) → All (λ c. c.redemptions_count ≡ h c.id) cs
    → All (λ c. c.redemptions_count ≡ h' c.id) (lower_count o cs)
lower_count-All none h h' step cs a = same-All h h' (λ j. omega (arith, step j)) cs a
lower_count-All (some i) h h' step cs a =
    on_coupon-All i (λ n. n - 1) h h'
      (λ j. ground (arith, step j, nat_eqb_iff i j, nat_eqb_iff j i)) cs a

-- Giving a redemption back keeps every coupon's counter equal to the number of its redemptions that
-- stand.
pub revert-IsBalanced :
    (now order_id : ℕ) (b : CouponBooks) → IsBalanced b → IsBalanced (revert now order_id b)
unfolding revert
revert-IsBalanced now order_id b h =
    lower_count-All (give_back now order_id b.usages).0 (λ j. live j b.usages)
      (λ j. live j (give_back now order_id b.usages).1)
      (λ j. give_back-live now order_id j b.usages) b.coupons h

-- The redemptions of order `o` that stand.
pub standing : ℕ → List CouponUsage → ℕ
standing o [] = 0
standing o (u ∷ us) =
    let rest = standing o us in if u.order_id == o && is_live u then suc rest else rest

give_back-standing :
    (now o : ℕ) (us : List CouponUsage) → standing o (give_back now o us).1 ≡ standing o us - 1
unfolding standing give_back
give_back-standing now o [] = refl
give_back-standing now o (u ∷ us) = elim (Bool-cases (u.order_id == o && is_live u)) [
  | inl here ↦ rw here (ground arith)
  | inr there ↦ rw (there, there) (give_back-standing now o us)
]

give_back-standing_other :
    (now o p : ℕ) (us : List CouponUsage)
    → p ≢ o
    → standing p (give_back now o us).1 ≡ standing p us
unfolding standing give_back
give_back-standing_other now o p [] h = refl
give_back-standing_other now o p (u ∷ us) h = elim (Bool-cases (u.order_id == o && is_live u)) [
  | inl here ↦ rw here (ground (arith, nat_eqb_iff u.order_id o, nat_eqb_iff u.order_id p, h))
  | inr there ↦ rw there (ground (arith, give_back-standing_other now o p us h))
]

-- The redemptions of other orders are left alone.
pub revert-standing_other :
    (now o p : ℕ) (b : CouponBooks)
    → p ≢ o
    → standing p (revert now o b).usages ≡ standing p b.usages
unfolding revert
revert-standing_other now o p b h = give_back-standing_other now o p b.usages h

pub revert-standing :
    (now o : ℕ) (b : CouponBooks) → standing o (revert now o b).usages ≡ standing o b.usages - 1
unfolding revert
revert-standing now o b = give_back-standing now o b.usages

used_for-append :
    (o : ℕ) (us : List CouponUsage) (v : CouponUsage)
    → v.order_id ≡ o
    → used_for o (us ++ v ∷ []) ≡ true
unfolding used_for
used_for-append o [] v h = ground (arith, nat_eqb_iff v.order_id o)
used_for-append o (u ∷ us) v h = ground (arith, used_for-append o us v)

used_for-give_back :
    (now o p : ℕ) (us : List CouponUsage) → used_for p (give_back now o us).1 ≡ used_for p us
unfolding used_for give_back
used_for-give_back now o p [] = refl
used_for-give_back now o p (u ∷ us) = elim (Bool-cases (u.order_id == o && is_live u)) [
  | inl here ↦ rw here refl
  | inr there ↦ rw there (ap (λ b. (u.order_id == p) || b) (used_for-give_back now o p us))
]

used_for-redeem :
    (c : Coupon) (user_id o : ℕ) (d : ℤ) (b : CouponBooks)
    → used_for o (redeem c user_id o d b).1.usages ≡ true
unfolding redeem
used_for-redeem c user_id o d b = elim (Bool-cases (used_for o b.usages)) [
  | inl used ↦ rw used used
  | inr new ↦ rw new (used_for-append o b.usages _ refl)
]

redeem-used :
    (c : Coupon) (user_id o : ℕ) (d : ℤ) (b : CouponBooks)
    → used_for o b.usages ≡ true
    → redeem c user_id o d b ≡ (false, b)
unfolding redeem
redeem-used c user_id o d b h = rw h refl

-- An order redeems a coupon at most once: after a redemption for it, also when that was given back
-- since, another redemption for the order returns False and writes nothing.
pub redeem_once :
    (c c' : Coupon) (user_id user_id' o now : ℕ) (d d' : ℤ) (b : CouponBooks)
    → (redeem c' user_id' o d' (redeem c user_id o d b).1 ≡ (false, (redeem c user_id o d b).1))
      × (redeem c' user_id' o d' (revert now o (redeem c user_id o d b).1)
          ≡ (false, revert now o (redeem c user_id o d b).1))
redeem_once c c' user_id user_id' o now d d' b =
    let done = (redeem c user_id o d b).1 in
    (
      redeem-used c' user_id' o d' done (used_for-redeem c user_id o d b),
      redeem-used c' user_id' o d' (revert now o done) (
          unfold revert in
          (used_for-give_back now o o done.usages ∙ used_for-redeem c user_id o d b)),
    )
