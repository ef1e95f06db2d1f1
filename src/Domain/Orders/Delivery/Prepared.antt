-- ===== src/Domain/Orders/Delivery/Prepared.antt =====
-- `prepare` of app/domain/orders/delivery.py: the rows of an order that is paid, and a second call.
use professional_bot.Prelude.{
  ℕ, ◌+◌, ◌≡◌, ◌⊎◌, refl, sym, ◌∙◌, ap, subst, true, false, not, List, [], ◌∷◌, ◌++◌, none, some,
  arith, any, Bool-cases, Option-cases, inl, inr, ok, raise_if, raise_if-eq-ok, conflict, ◌==◌,
  nat_eq, nat_eqb_iff, >>=-eq-ok, ok-injective,
}
use professional_bot.Domain.Enums.OrderStatus
use professional_bot.Domain.Enums.OrderStatus.{order_status_eq}
use professional_bot.Domain.Orders.Lifecycle.{Order, OrderItem, transition, stamp}
use professional_bot.Domain.Orders.Lifecycle.Stamps.{transition-Moved}
use professional_bot.Domain.StateMachines.{assert_order_transition}
use professional_bot.Domain.Orders.Delivery.{
  Delivery, Depot, is_verified_for, assert_paid, get_for_order_item, new_delivery, prepare_items,
  prepare,
}

some_injective {ℓ} : {A : Type ℓ} {a b : A} → some a ≡ some b → a ≡ b
some_injective h = cc

get_for_order_item-append :
    (i : ℕ) (ds : List Delivery) (d e : Delivery)
    → get_for_order_item i ds ≡ some d
    → get_for_order_item i (ds ++ e ∷ []) ≡ some d
unfolding get_for_order_item
get_for_order_item-append i [] d e h = absurd (cc h)
get_for_order_item-append i (x ∷ ds) d e h = elim (Bool-cases (x.order_item_id == i)) [
  | inl hit ↦ rw hit (rw hit at h)
  | inr miss ↦ rw miss (get_for_order_item-append i ds d e (rw miss at h))
]

get_for_order_item-new :
    (i : ℕ) (ds : List Delivery) (d : Delivery)
    → get_for_order_item i ds ≡ none
    → d.order_item_id ≡ i
    → get_for_order_item i (ds ++ d ∷ []) ≡ some d
unfolding get_for_order_item
get_for_order_item-new i [] d h same = rw ((nat_eqb_iff d.order_item_id i).1 same) refl
get_for_order_item-new i (x ∷ ds) d h same = elim (Bool-cases (x.order_item_id == i)) [
  | inl hit ↦ absurd (cc (rw hit at h))
  | inr miss ↦ rw miss (get_for_order_item-new i ds d (rw miss at h) same)
]

-- One row for each line item, found in the table by that item.
abbrev pub AreRows : List OrderItem → List Delivery → List Delivery → Type 0
AreRows [] [] table = Unit {0}
AreRows (i ∷ items) (d ∷ made) table =
    (get_for_order_item i.id table ≡ some d) × AreRows items made table
AreRows [] (d ∷ made) table = ⊥
AreRows (i ∷ items) [] table = ⊥

prepare_items-keeps :
    (row now : ℕ) (o : Order) (items : List OrderItem) (ds : List Delivery) (i : ℕ) (d : Delivery)
    → get_for_order_item i ds ≡ some d
    → get_for_order_item i (prepare_items row now o items ds).1 ≡ some d
unfolding prepare_items
prepare_items-keeps row now o [] ds i d h = h
prepare_items-keeps row now o (x ∷ items) ds i d h =
    elim (Option-cases (get_for_order_item x.id ds)) [
      | inr (e, found) ↦ rw (prepare_items, found) (prepare_items-keeps row now o items ds i d h)
      | inl fresh ↦
          rw (prepare_items, fresh)
            (prepare_items-keeps (row + 1) now o items (ds ++ new_delivery row now o x ∷ []) i d
              (get_for_order_item-append i ds d (new_delivery row now o x) h))
    ]

prepare_items-AreRows :
    (row now : ℕ) (o : Order) (items : List OrderItem) (ds : List Delivery)
    → AreRows items (prepare_items row now o items ds).0 (prepare_items row now o items ds).1
unfolding prepare_items
prepare_items-AreRows row now o [] ds = tt
prepare_items-AreRows row now o (x ∷ items) ds = elim (Option-cases (get_for_order_item x.id ds)) [
  | inr (e, found) ↦
      rw (prepare_items, found)
        (
          prepare_items-keeps row now o items ds x.id e found,
          prepare_items-AreRows row now o items ds,
        )
  | inl fresh ↦
      let d = new_delivery row now o x in
      rw (prepare_items, fresh)
        (
          prepare_items-keeps (row + 1) now o items (ds ++ d ∷ []) x.id d
              (get_for_order_item-new x.id ds d fresh refl),
          prepare_items-AreRows (row + 1) now o items (ds ++ d ∷ []),
        )
]

-- Rows that are all there are taken as they are.
prepare_items-again :
    (row now : ℕ) (o : Order) (items : List OrderItem) (made table : List Delivery)
    → AreRows items made table
    → prepare_items row now o items table ≡ (made, table)
unfolding prepare_items
prepare_items-again row now o [] [] table h = refl
prepare_items-again row now o [] (d ∷ made) table h = absurd h
prepare_items-again row now o (x ∷ items) [] table h = absurd h
prepare_items-again row now o (x ∷ items) (d ∷ made) table h =
    rw (prepare_items, h.0, prepare_items-again row now o items made table h.1) refl

-- What preparing an order shows of it and leaves.
pub record Prepared (order : Order) (depot : Depot) (made : List Delivery) (depot' : Depot)
    : Type 0 where
  pub paid : any (is_verified_for order.id) depot.intents ≡ true
  pub rows : AreRows order.items made depot'.deliveries
  pub after : Order
  pub stored : depot'.order ≡ some after
  pub same_id : after.id ≡ order.id
  pub same_items : after.items ≡ order.items
  pub status :
      (after.status ≡ order.status)
      ⊎ ((order.status ≡ OrderStatus.payment_verified) × (after.status ≡ OrderStatus.fulfilling))
  pub started : (after.status == OrderStatus.payment_verified) ≡ false
  pub same_intents : depot'.intents ≡ depot.intents

transition-items :
    (now : ℕ) (o o' : Order)
    → transition now none OrderStatus.fulfilling o ≡ ok o'
    → o'.items ≡ o.items
unfolding transition stamp
transition-items now o o' h =
    let (u, e, g) = >>=-eq-ok (assert_order_transition o.status OrderStatus.fulfilling) _ h in
    sym (ap (λ x. x.items) (ok-injective g))

-- An order that is prepared has a verified payment; then each of its line items has one delivery row in
-- the table, the one that is returned, the order is being fulfilled if it was PAYMENT_VERIFIED and keeps
-- its status if it was not, and the payments are as they were.
pub prepare-Prepared :
    (row now : ℕ) (order : Order) (depot : Depot) (made : List Delivery) (depot' : Depot)
    → prepare row now order depot ≡ ok (made, depot')
    → Prepared order depot made depot'
unfolding prepare assert_paid
prepare-Prepared row now o p made p' h =
    let unpaid = not (any (is_verified_for o.id) p.intents) in
    let (a, ea, ga) = >>=-eq-ok (raise_if unpaid conflict) _ h in
    let paid : any (is_verified_for o.id) p.intents ≡ true =
      ground (arith, raise_if-eq-ok unpaid conflict ea) in
    let found = prepare_items row now o o.items p.deliveries in
    let rows = prepare_items-AreRows row now o o.items p.deliveries in
    elim (Bool-cases (o.status == OrderStatus.payment_verified)) [
      | inr other ↦
          subst (λ x. Prepared o p x.0 x.1)
            (ok-injective {x = (found.0, record p { order = some o; deliveries = found.1 })}
              (rw other at ga))
            (record {
              paid = paid;
              rows = rows;
              after = o;
              stored = refl;
              same_id = refl;
              same_items = refl;
              status = inl refl;
              started = other;
              same_intents = refl;
            })
      | inl verified ↦
          let (after, e, g) =
            >>=-eq-ok (transition now none OrderStatus.fulfilling o) _ (rw verified at ga) in
          let moved = transition-Moved now none OrderStatus.fulfilling o after e in
          subst (λ x. Prepared o p x.0 x.1) (ok-injective g)
            (record {
              paid = paid;
              rows = rows;
              after = after;
              stored = refl;
              same_id = moved.same_id;
              same_items = transition-items now o after e;
              status = inr (
                (order_status_eq.beq_iff o.status OrderStatus.payment_verified).0 verified,
                moved.arrives,
              );
              started = rw moved.arrives refl;
              same_intents = refl;
            })
    ]

-- Preparing an order again, as it was left by a call that returned, returns the same rows and changes
-- nothing.
pub prepare_again :
    (row now row' now' : ℕ) (order after : Order) (depot : Depot) (made : List Delivery)
    (depot' : Depot)
    → prepare row now order depot ≡ ok (made, depot')
    → depot'.order ≡ some after
    → prepare row' now' after depot' ≡ ok (made, depot')
unfolding prepare assert_paid
prepare_again row now row' now' o after p made p' h is =
    let done = prepare-Prepared row now o p made p' h in
    let same : done.after ≡ after = some_injective (sym done.stored ∙ is) in
    let paid : any (is_verified_for after.id) p'.intents ≡ true =
      subst (λ x. any (is_verified_for x.id) p'.intents ≡ true) same
        (rw (done.same_id, done.same_intents) done.paid) in
    let rows : AreRows after.items made p'.deliveries =
      subst (λ x. AreRows x.items made p'.deliveries) same (rw done.same_items done.rows) in
    let started : (after.status == OrderStatus.payment_verified) ≡ false =
      subst (λ x. (x.status == OrderStatus.payment_verified) ≡ false) same done.started in
    rw (paid, prepare_items-again row' now' after after.items made p'.deliveries rows, started)
      (ap (λ x. ok (made, record p' { order = x })) (sym is))
