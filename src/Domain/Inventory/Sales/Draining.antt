-- ===== src/Domain/Inventory/Sales/Draining.antt =====
-- The loop that sells the active rows, in `allocate_for_order_item` of app/domain/inventory/service.py.
use professional_bot.Prelude.{
  ℕ, ◌≡◌, refl, ◌∙◌, ap, subst, true, false, ◌==◌, List, [], ◌∷◌, arith, In, All, ◌⊎◌, nat_eq,
  contains, map, Bool-cases, inl, inr, ok, >>=-eq-ok, ok-injective, nat_eqb_iff,
}
use professional_bot.Domain.Enums.DeliveryType.{delivery_type_eq}
use professional_bot.Domain.Inventory.{
  active, consumed, reservation_status_eq, InventoryReservation, Stock, flush, set_row, for_each,
}
use professional_bot.Domain.Inventory.Allocation.{sale, sell, consume, is_of}
use professional_bot.Domain.Inventory.Defects.{set_row-In, set_row-In_other}
use professional_bot.Domain.Inventory.Sales.Kept.{flush-eq-ok}

pub set_row-In_rest :
    (r e : InventoryReservation) (rs : List InventoryReservation)
    → In e (set_row r rs)
    → (e ≡ r) ⊎ (In e rs × ((e.id == r.id) ≡ false))
unfolding set_row
set_row-In_rest r e [] m = absurd m.1
set_row-In_rest r e (x ∷ rs) (inr m) = elim (set_row-In_rest r e rs m) [
  | inl same ↦ inl same
  | inr (old, other) ↦ inr (inr old, other)
]
set_row-In_rest r e (x ∷ rs) (inl p) = elim (Bool-cases (x.id == r.id)) [
  | inl hit ↦ inl (rw hit at p)
  | inr miss ↦ let q = rw miss at p in inr (inl q, ap (λ y. y.id == r.id) q ∙ miss)
]

abbrev pub ids : List InventoryReservation → List ℕ
ids rs = map (λ r. r.id) rs

pub contains-ids :
    (e : InventoryReservation) (rs : List InventoryReservation)
    → In e rs
    → contains (ids rs) e.id ≡ true
contains-ids e [] m = absurd m.1
contains-ids e (x ∷ rs) (inl p) = ground (arith, ap (λ y. y.id) p, nat_eqb_iff e.id x.id)
contains-ids e (x ∷ rs) (inr m) = ground (arith, contains-ids e rs m)

module _ (o oi : ℕ) where
  -- The order item has no active row, and has a consumed one.
  abbrev pub NoneActive : List InventoryReservation → Type 0
  NoneActive rs = (e : InventoryReservation) → In e rs → is_of o oi active e ≡ false

  abbrev pub HasSale : List InventoryReservation → Type 0
  HasSale rs = (e : InventoryReservation) × In e rs × (is_of o oi consumed e ≡ true)

  -- The active rows of the table are among those that are left.
  abbrev pub AreLeft : List InventoryReservation → List InventoryReservation → Type 0
  AreLeft rows rs =
      (e : InventoryReservation)
      → In e rs
      → is_of o oi active e ≡ true
      → contains (ids rows) e.id ≡ true

  sale-is_of :
      (now : ℕ) (r : InventoryReservation)
      → is_of o oi active r ≡ true
      → (is_of o oi consumed (sale now r) ≡ true) × (is_of o oi active (sale now r) ≡ false)
  sale-is_of now r h = ground arith

  AreLeft-next :
      (now : ℕ) (r : InventoryReservation) (rows rs : List InventoryReservation)
      → is_of o oi active r ≡ true
      → AreLeft (r ∷ rows) rs
      → AreLeft rows (set_row (sale now r) rs)
  AreLeft-next now r rows rs here h e m k = elim (set_row-In_rest (sale now r) e rs m) [
    | inl same ↦ absurd (cc (ap (is_of o oi active) same, (sale-is_of now r here).1, k))
    | inr (old, other) ↦ ground (arith, h e old k)
  ]

  HasSale-next :
      (now : ℕ) (r : InventoryReservation) (rs : List InventoryReservation)
      → is_of o oi active r ≡ true
      → HasSale rs
      → HasSale (set_row (sale now r) rs)
  HasSale-next now r rs here (e, m, h) = elim (Bool-cases (e.id == r.id)) [
    | inl hit ↦ (
      sale now r,
      set_row-In (sale now r) e rs m ((nat_eqb_iff e.id r.id).0 hit),
      (sale-is_of now r here).0,
    )
    | inr miss ↦
        (e, set_row-In_other (sale now r) e rs m (λ p. cc (miss, (nat_eqb_iff e.id r.id).1 p)), h)
  ]

  -- The loop leaves no active row, and keeps a sale.
  pub drained :
      (now : ℕ) (rows : List InventoryReservation) (s t : Stock)
      → for_each (consume now) rows s ≡ ok t
      → All (λ r. is_of o oi active r ≡ true) rows
      → AreLeft rows s.reservations
      → NoneActive t.reservations × (HasSale s.reservations → HasSale t.reservations)
  unfolding for_each consume
  drained now [] s t h all left =
      let same = ok-injective h in
      subst (λ x. NoneActive x.reservations × (HasSale s.reservations → HasSale x.reservations))
        same
        (
          λ e m. elim (Bool-cases (is_of o oi active e)) [
            | inl holds ↦ absurd (cc (left e m holds))
            | inr fails ↦ fails
          ],
          λ x. x,
        )
  drained now (r ∷ rows) s t h all left =
      let (next, e, g) = >>=-eq-ok (flush (sell now r s)) _ h in
      let (same, unique) = flush-eq-ok (sell now r s) next e in
      let later = drained now rows next t g all.1 (
        subst (λ x. AreLeft rows x.reservations) same
          (AreLeft-next now r rows s.reservations all.0 left)) in
      (
        later.0,
        λ sale. later.1 (
            subst (λ x. HasSale x.reservations) same
              (HasSale-next now r s.reservations all.0 sale)),
      )

  -- One row to sell leaves a sale.
  pub drained-HasSale :
      (now : ℕ) (r : InventoryReservation) (rows : List InventoryReservation) (s t : Stock)
      → for_each (consume now) (r ∷ rows) s ≡ ok t
      → All (λ r. is_of o oi active r ≡ true) (r ∷ rows)
      → AreLeft (r ∷ rows) s.reservations
      → In r s.reservations
      → HasSale t.reservations
  unfolding for_each consume
  drained-HasSale now r rows s t h all left here =
      let (next, e, g) = >>=-eq-ok (flush (sell now r s)) _ h in
      let (same, unique) = flush-eq-ok (sell now r s) next e in
      let keeps =
        (drained now rows next t g all.1 (
          subst (λ x. AreLeft rows x.reservations) same
            (AreLeft-next now r rows s.reservations all.0 left))).1 in
      keeps (
        subst (λ x. HasSale x.reservations) same
          (
            sale now r,
            set_row-In (sale now r) r s.reservations here refl,
            (sale-is_of now r all.0).0,
          ))
