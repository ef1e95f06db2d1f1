-- ===== src/Domain/Inventory/Releases.antt =====
-- `release_for_order` of app/domain/inventory/service.py: the holds of an order and the items under them.
use professional_bot.Prelude.{
  ℕ, Bool, ◌≡◌, ◌≢◌, refl, ap, subst, true, false, ◌&&◌, ◌==◌, List, [], ◌∷◌, arith, In, nat_eq,
  nat_eqb_iff, contains, Bool-cases, inl, inr, ok, >>=-eq-ok, ok-injective, filter_by-In, All,
}
use professional_bot.Domain.Inventory.{
  active, released, stock_item_status_eq, reservation_status_eq, InventoryReservation, Stock,
  end_hold, flush, set_row, release, for_each, active_for_order, release_for_order,
}
use professional_bot.Domain.Inventory.Sales.Draining.{ids, contains-ids, set_row-In_rest}
use professional_bot.Domain.Inventory.Sales.Kept.{flush-eq-ok}
use professional_bot.Domain.Inventory.Freed.{
  IsFree, Freed, Freed-refl, Freed-trans, Freed-IsFree, free_item-Freed, free_item-IsFree, Ended,
  Ended-refl, Ended-trans, set_row-Ended, ended_at,
}

-- No row of the order is ACTIVE.
abbrev pub IsReleased : ℕ → List InventoryReservation → Type 0
IsReleased o rs = (r : InventoryReservation) → In r rs → r.order_id ≡ o → r.status ≢ active

-- The rows `E` of the loop, and the ids of their items.
module _ (E : InventoryReservation → Type 0) (now : ℕ) where
  abbrev pub UnderHold : ℕ → Type 0
  UnderHold i = (r : InventoryReservation) × E r × (r.inventory_item_id ≡ i)

  abbrev pub AllEnded : Stock → Stock → Type 0
  AllEnded s t = Freed UnderHold s.items t.items × Ended E now s.reservations t.reservations

  end_hold-AllEnded :
      (r : InventoryReservation) (s : Stock) → E r → AllEnded s (end_hold released now r s)
  end_hold-AllEnded r s h = (
    free_item-Freed UnderHold r.inventory_item_id (r, h, refl) s.items,
    set_row-Ended E now r h s.reservations,
  )

  release_loop-AllEnded :
      (rows : List InventoryReservation) (s t : Stock)
      → for_each (release now) rows s ≡ ok t
      → All E rows
      → AllEnded s t × ((r : InventoryReservation) → In r rows → IsFree r.inventory_item_id t.items)
  unfolding for_each release
  release_loop-AllEnded [] s t h all = (
    subst (AllEnded s) (ok-injective h)
        (Freed-refl UnderHold s.items, Ended-refl E now s.reservations),
    λ r m. absurd m.1,
  )
  release_loop-AllEnded (x ∷ rows) s t h all =
      let (next, e, g) = >>=-eq-ok (flush (end_hold released now x s)) _ h in
      let (same, unique) = flush-eq-ok (end_hold released now x s) next e in
      let (later, frees) = release_loop-AllEnded rows next t g all.1 in
      let first = subst (AllEnded s) same (end_hold-AllEnded x s all.0) in
      (
        (
          Freed-trans UnderHold s.items next.items t.items first.0 later.0,
          Ended-trans E now s.reservations next.reservations t.reservations first.1 later.1,
        ),
        λ r m. elim m [
          | inr old ↦ frees r old
          | inl here ↦ rw here (
              Freed-IsFree UnderHold x.inventory_item_id next.items t.items later.0 (
                subst (λ y. IsFree x.inventory_item_id y.items) same
                  (free_item-IsFree x.inventory_item_id s.items)))
        ],
      )

module _ (o : ℕ) where
  -- The active rows of the order are among those that are left.
  abbrev AreListed : List InventoryReservation → List InventoryReservation → Type 0
  AreListed rows rs =
      (e : InventoryReservation)
      → In e rs
      → (e.order_id == o && e.status == active) ≡ true
      → contains (ids rows) e.id ≡ true

  ended : (b : Bool) → (b && (released == active)) ≡ false
  ended b = ground arith

  AreListed-next :
      (now : ℕ) (r : InventoryReservation) (rows rs : List InventoryReservation)
      → AreListed (r ∷ rows) rs
      → AreListed rows (set_row (ended_at now r) rs)
  AreListed-next now r rows rs h e m k = elim (set_row-In_rest (ended_at now r) e rs m) [
    | inl same ↦
        absurd
          (cc (ap (λ x. x.order_id == o && x.status == active) same, ended (r.order_id == o), k))
    | inr (old, other) ↦ ground (arith, h e old k)
  ]

  release_loop-IsReleased :
      (now : ℕ) (rows : List InventoryReservation) (s t : Stock)
      → for_each (release now) rows s ≡ ok t
      → AreListed rows s.reservations
      → IsReleased o t.reservations
  unfolding for_each release
  release_loop-IsReleased now [] s t h listed =
      subst (λ x. IsReleased o x.reservations) (ok-injective h)
        (λ r m own held. cc (
          listed r m (
            rw
              (
                (nat_eqb_iff r.order_id o).1 own,
                (reservation_status_eq.beq_iff r.status active).1 held,
              )
              refl)))
  release_loop-IsReleased now (x ∷ rows) s t h listed =
      let (next, e, g) = >>=-eq-ok (flush (end_hold released now x s)) _ h in
      let (same, unique) = flush-eq-ok (end_hold released now x s) next e in
      release_loop-IsReleased now rows next t g (
        subst (λ y. AreListed rows y.reservations) same
          (AreListed-next now x rows s.reservations listed))

  -- A row of `s` that is ACTIVE for the order.
  abbrev pub IsHeld : Stock → InventoryReservation → Type 0
  IsHeld s r = In r s.reservations × (r.order_id ≡ o) × (r.status ≡ active)

  -- What a release of the order's holds leaves of the tables.
  pub record Released (now : ℕ) (s t : Stock) : Type 0 where
    pub none_held : IsReleased o t.reservations
    pub all_free : (r : InventoryReservation) → IsHeld s r → IsFree r.inventory_item_id t.items
    pub ended : AllEnded (IsHeld s) now s t

  active_for_order-IsHeld :
      (s : Stock) (rows : List InventoryReservation)
      → ((r : InventoryReservation) → In r rows → In r s.reservations)
      → All (IsHeld s) (active_for_order o rows)
  unfolding active_for_order
  active_for_order-IsHeld s [] sub = tt
  active_for_order-IsHeld s (x ∷ xs) sub =
      let rest = active_for_order-IsHeld s xs (λ r m. sub r (inr m)) in
      elim (Bool-cases (x.order_id == o && x.status == active)) [
        | inl hit ↦ rw hit (
          (
            sub x (inl refl),
            (nat_eqb_iff x.order_id o).0 (ground arith),
            (reservation_status_eq.beq_iff x.status active).0 (ground arith),
          ),
          rest,
        )
        | inr miss ↦ rw miss rest
      ]

  pub release_for_order-Released :
      (now n : ℕ) (s t : Stock) → release_for_order now o s ≡ ok (n, t) → Released now s t
  unfolding release_for_order active_for_order
  release_for_order-Released now n s t h =
      let rows = active_for_order o s.reservations in
      let (after, e, g) = >>=-eq-ok (for_each (release now) rows s) _ h in
      let own =
        λ (r : InventoryReservation) (m : In r s.reservations)
            (k : (r.order_id == o && r.status == active) ≡ true).
          filter_by-In (λ x. x.order_id == o && x.status == active) r s.reservations m k in
      let (all, frees) =
        release_loop-AllEnded (IsHeld s) now rows s after e
          (active_for_order-IsHeld s s.reservations (λ r m. m)) in
      subst (Released now s) (ap (λ x. x.1) (ok-injective g)) (record {
        none_held =
            release_loop-IsReleased now rows s after e (λ r m k. contains-ids r rows (own r m k));
        all_free = λ r held. frees r (
            own r held.0 (
              rw
                (
                  (nat_eqb_iff r.order_id o).1 held.1,
                  (reservation_status_eq.beq_iff r.status active).1 held.2,
                )
                refl));
        ended = all;
      })
