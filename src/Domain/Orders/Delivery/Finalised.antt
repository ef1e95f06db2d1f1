-- ===== src/Domain/Orders/Delivery/Finalised.antt =====
-- `finalise_order` of app/domain/orders/delivery.py, and the pass of app/workers/delivery/dispatcher.py.
use professional_bot.Prelude.{
  ℕ, ◌≤◌, ◌≡◌, ◌≢◌, ◌⊎◌, refl, sym, ◌∙◌, ap, subst, Bool, true, false, not, ◌||◌, List, [], ◌∷◌,
  none, some, arith, ltb, length, any, All, Bool-cases, inl, inr, ok, err, ◌==◌, nat_eq, >>=-eq-ok,
  ok-injective, invalid_transition,
}
use professional_bot.Domain.Enums.DeliveryStatus
use professional_bot.Domain.Enums.DeliveryStatus.{delivery_status_eq}
use professional_bot.Domain.Enums.OrderStatus.{OrderStatus, order_status_eq}
use professional_bot.Domain.Orders.Lifecycle.{Order, transition}
use professional_bot.Domain.Orders.Lifecycle.Stamps.{transition-Moved}
use professional_bot.Domain.Orders.Creation.{Desk, complete}
use professional_bot.Domain.Orders.Delivery.{Delivery, Depot}
use professional_bot.Domain.Orders.Delivery.Finishing.{
  list_for_order, is_open, deliver_order, complete_order, finalise_order,
}
use professional_bot.Domain.StateMachines.{assert_order_transition}

-- Every row is completed.
abbrev pub AreCompleted : List Delivery → Type 0
AreCompleted ds = All (λ d. d.status ≡ DeliveryStatus.completed) ds

none_open : (ds : List Delivery) → any is_open ds ≡ false → AreCompleted ds
none_open [] h = tt
none_open (d ∷ ds) h = (
  ground (arith, delivery_status_eq.beq_iff d.status DeliveryStatus.completed),
  none_open ds (ground arith),
)

-- What a finalisation that returns leaves of the order.
abbrev pub IsFinal : Order → Order → Type 0
IsFinal o o' =
    (((o.status ≡ OrderStatus.fulfilling) ⊎ (o.status ≡ OrderStatus.delivered))
      × (o'.status ≡ OrderStatus.completed))
    ⊎ ((o' ≡ o) × (o.status ≢ OrderStatus.fulfilling) × (o.status ≢ OrderStatus.delivered))

pub record Finalised (o : Order) (p : Depot) (b : Bool) (p' : Depot) : Type 0 where
  pub waits : b ≡ false → p' ≡ p
  pub done :
      b ≡ true
      → (1 ≤ length (list_for_order o.id p.deliveries))
        × AreCompleted (list_for_order o.id p.deliveries)
        × ((o' : Order) × ((p'.order ≡ some o') × IsFinal o o'))
  pub same_payments : p'.intents ≡ p.intents
  pub same_deliveries : p'.deliveries ≡ p.deliveries

pub delivery_failed_stays :
    (now : ℕ) (o : Order)
    → o.status ≡ OrderStatus.delivery_failed
    → transition now none OrderStatus.delivered o ≡ err invalid_transition
unfolding transition assert_order_transition
delivery_failed_stays now o h = rw h refl

complete-completed :
    (now : ℕ) (o : Order) (desk : Desk) (o' : Order) (desk' : Desk)
    → complete now o desk ≡ ok (o', desk')
    → o'.status ≡ OrderStatus.completed
unfolding complete
complete-completed now o d o' d' h = elim (Bool-cases (o.status == OrderStatus.completed)) [
  | inl already ↦
      sym (ap (λ x. x.0.status) (ok-injective {x = (o, d)} (rw already at h)))
      ∙ (order_status_eq.beq_iff o.status OrderStatus.completed).0 already
  | inr fresh ↦
      let (done, e, g) =
        >>=-eq-ok (transition now none OrderStatus.completed o) _ (rw fresh at h) in
      sym (ap (λ x. x.0.status) (ok-injective g))
      ∙ (transition-Moved now none OrderStatus.completed o done e).arrives
]

close-IsFinal :
    (now : ℕ) (o moved : Order) (desk : Desk) (x : Order × Desk)
    → deliver_order now o ≡ ok moved
    → complete_order now moved desk ≡ ok x
    → IsFinal o x.0
close-IsFinal now o moved desk x h g =
    elim (Bool-cases
      (o.status == OrderStatus.fulfilling || o.status == OrderStatus.delivery_failed)) [
        | inl ready ↦
            let e = rw ready at h in
            let arrived = (transition-Moved now none OrderStatus.delivered o moved e).arrives in
            let there : (moved.status == OrderStatus.delivered) ≡ true =
              (order_status_eq.beq_iff moved.status OrderStatus.delivered).1 arrived in
            elim (Bool-cases (o.status == OrderStatus.fulfilling)) [
              | inl filling ↦ inl (
                inl ((order_status_eq.beq_iff o.status OrderStatus.fulfilling).0 filling),
                complete-completed now moved desk x.0 x.1 (rw there at g),
              )
              | inr other ↦
                  let failed : o.status ≡ OrderStatus.delivery_failed =
                    (order_status_eq.beq_iff o.status OrderStatus.delivery_failed).0
                      (ground arith) in
                  absurd (cc (delivery_failed_stays now o failed, e))
            ]
        | inr other ↦
            let same : o ≡ moved = ok-injective (rw other at h) in
            elim (Bool-cases (moved.status == OrderStatus.delivered)) [
              | inl there ↦ inl (
                inr (
                    ap (λ y. y.status) same
                    ∙ (order_status_eq.beq_iff moved.status OrderStatus.delivered).0 there),
                complete-completed now moved desk x.0 x.1 (rw there at g),
              )
              | inr elsewhere ↦ inr (
                sym (ap (λ y. y.0) (ok-injective {x = (moved, desk)} (rw elsewhere at g)))
                    ∙ sym same,
                λ filling. cc (rw filling at other),
                λ delivered. cc (rw (sym (ap (λ y. y.status) same) ∙ delivered) at elsewhere),
              )
            ]
      ]

-- A finalisation that returns False changes nothing; one that returns True is of an order with at least
-- one delivery, all of them completed: an order that was FULFILLING or DELIVERED is then COMPLETED, any
-- other is as it was; the payments and the deliveries stay.
pub finalise_order-Finalised :
    (now : ℕ) (o : Order) (p : Depot) (b : Bool) (p' : Depot)
    → finalise_order now o p ≡ ok (b, p')
    → Finalised o p b p'
unfolding finalise_order
finalise_order-Finalised now o p b p' h =
    let ds = list_for_order o.id p.deliveries in
    elim (Bool-cases (not (ltb 0 (length ds)) || any is_open ds)) [
      | inl waiting ↦
          subst (λ x. Finalised o p x.0 x.1) (ok-injective {x = (false, p)} (rw waiting at h))
            (record {
              waits = λ _. refl;
              done = λ e. absurd (cc e);
              same_payments = refl;
              same_deliveries = refl;
            })
      | inr ready ↦
          let (moved, e, g) = >>=-eq-ok (deliver_order now o) _ (rw ready at h) in
          let (x, e', g') = >>=-eq-ok (complete_order now moved p.desk) _ g in
          subst (λ x. Finalised o p x.0 x.1) (ok-injective g')
            (record {
              waits = λ e. absurd (cc e);
              done = λ _. (
                ground arith,
                none_open ds (ground arith),
                (x.0, (refl, close-IsFinal now o moved p.desk x e e')),
              );
              same_payments = refl;
              same_deliveries = refl;
            })
    ]

-- An order that is DELIVERY_FAILED is never finalised: with at least one delivery, all of them
-- completed, the call raises `InvalidStateTransition`.
pub finalise_order-failed :
    (now : ℕ) (o : Order) (p : Depot)
    → o.status ≡ OrderStatus.delivery_failed
    → 1 ≤ length (list_for_order o.id p.deliveries)
    → any is_open (list_for_order o.id p.deliveries) ≡ false
    → finalise_order now o p ≡ err invalid_transition
unfolding finalise_order
finalise_order-failed now o p failed nonempty closed =
    let ready : (not (ltb 0 (length (list_for_order o.id p.deliveries)))
          || any is_open (list_for_order o.id p.deliveries))
        ≡ false =
      ground arith in
    rw (ready, raises) refl
  where
    tried : (o.status == OrderStatus.fulfilling || o.status == OrderStatus.delivery_failed) ≡ true
    tried = rw failed refl

    raises : deliver_order now o ≡ err invalid_transition
    raises = rw (deliver_order, tried) (delivery_failed_stays now o failed)
