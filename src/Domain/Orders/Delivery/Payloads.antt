-- ===== src/Domain/Orders/Delivery/Payloads.antt =====
-- `fulfil` and `reveal` of app/domain/orders/delivery.py: what is handed over, and what is read again.
use professional_bot.Prelude.{
  ℕ, suc, ◌≡◌, refl, sym, ap, subst, true, false, List, [], ◌∷◌, All, Option, none, some, any,
  Bool-cases, inl, inr, ok, err, Result, ◌==◌, nat_eq, is_some, ok-injective,
}
use professional_bot.Prelude.Text.{Text, is_empty}
use professional_bot.Domain.Enums.DeliveryStatus
use professional_bot.Domain.Enums.DeliveryStatus.{delivery_status_eq}
use professional_bot.Domain.Enums.PaymentStatus.{payment_status_eq}
use professional_bot.Domain.Catalog.{Product}
use professional_bot.Domain.Enums.DeliveryType.{DeliveryType}
use professional_bot.Domain.Inventory.{InventoryItem, Stock}
use professional_bot.Domain.Inventory.Allocation.{allocate}
use professional_bot.Domain.Inventory.Sales.Kept.{IsValid}
use professional_bot.Domain.Inventory.Sales.Operations.{allocate-IsValid}
use professional_bot.Domain.Orders.Lifecycle.{Order, OrderItem}
use professional_bot.Domain.Orders.Delivery.{
  SecretBox, Delivery, DeliveredPayload, Depot, is_verified_for, assert_paid, plain, allocated,
  stock_payload, product_of, build_payload, decode_text, decode, sealed, finish, attempt_on,
  find_line, fulfil_line, fulfil_order, fulfil, viewed, reveal,
}
use professional_bot.Domain.Orders.Delivery.Lines.{IsLine, join_lines, split_lines-join_lines}

module _ (box : SecretBox) where
  -- What is sealed reads back.
  decode_text-sealed :
      (items : List Text) → All IsLine items → decode_text box (sealed box items) ≡ ok items
  decode_text-sealed [] h = refl
  decode_text-sealed (t ∷ ts) h = opened (box.encrypt (join_lines (t ∷ ts))) refl (box.not_empty _)
    where
      opened :
          (token : Text)
          → box.encrypt (join_lines (t ∷ ts)) ≡ token
          → is_empty (box.encrypt (join_lines (t ∷ ts))) ≡ false
          → decode_text box (some token) ≡ ok (t ∷ ts)
      opened [] same full = absurd (cc (ap is_empty same, full))
      opened (c ∷ token) same full =
          rw (sym same, box.decrypts (join_lines (t ∷ ts)))
            (ap (λ x. ok x) (split_lines-join_lines t ts h))

  -- What building a payload leaves as it was.
  pub record Kept (d : Delivery) (p : Depot) (x : Delivery × Depot) : Type 0 where
    pub same_id : x.0.id ≡ d.id
    pub same_item : x.0.order_item_id ≡ d.order_item_id
    pub same_status : x.0.status ≡ d.status
    pub same_attempts : x.0.attempts ≡ d.attempts
    pub same_order : x.1.order ≡ p.order
    pub same_intents : x.1.intents ≡ p.intents
    pub same_deliveries : x.1.deliveries ≡ p.deliveries
    pub stock_valid : IsValid p.desk.stock → IsValid x.1.desk.stock

  nothing_changed : (d : Delivery) (p : Depot) → Kept d p (d, p)
  nothing_changed d p = record {
    same_id = refl;
    same_item = refl;
    same_status = refl;
    same_attempts = refl;
    same_order = refl;
    same_intents = refl;
    same_deliveries = refl;
    stock_valid = λ v. v;
  }

  allocated-Kept :
      (d : Delivery) (p : Depot) (product : Product) (r : Result (List InventoryItem × Stock))
      → ((items : List InventoryItem) (t : Stock)
          → r ≡ ok (items, t)
          → IsValid p.desk.stock
          → IsValid t)
      → Kept d p (allocated box d p product r).0
  allocated-Kept d p product (err e) keeps = nothing_changed d p
  allocated-Kept d p product (ok (items, t)) keeps = record {
    same_id = refl;
    same_item = refl;
    same_status = refl;
    same_attempts = refl;
    same_order = refl;
    same_intents = refl;
    same_deliveries = refl;
    stock_valid = keeps items t refl;
  }

  stock_payload-Kept :
      (row now : ℕ) (o : Order) (i : OrderItem) (d : Delivery) (p : Depot)
      (product : Option Product)
      → Kept d p (stock_payload box row now o i d p product).0
  stock_payload-Kept row now o i d p none = nothing_changed d p
  stock_payload-Kept row now o i d p (some product) =
      allocated-Kept d p product (allocate row now product i.quantity o.id i.id p.desk.stock)
        (λ items t h. allocate-IsValid row now product i.quantity o.id i.id p.desk.stock items t h)

  build_payload-Kept :
      (row now : ℕ) (o : Order) (i : OrderItem) (d : Delivery) (p : Depot)
      → Kept d p (build_payload box row now o i d p).0
  unfolding build_payload
  build_payload-Kept row now o i d p = by_type i.delivery_type refl
    where
      by_type :
          (t : DeliveryType) → i.delivery_type ≡ t → Kept d p (build_payload box row now o i d p).0
      by_type DeliveryType.stock_item h =
          rw (build_payload, h)
            (stock_payload-Kept row now o i d p (product_of i.product_id p.desk.products))
      by_type DeliveryType.static_payload h = rw (build_payload, h) (nothing_changed d p)
      by_type DeliveryType.file h = rw (build_payload, h) (nothing_changed d p)
      by_type DeliveryType.manual h = rw (build_payload, h) (nothing_changed d p)

  -- What an attempt that delivers shows of the depot before it, and of the delivery after it.
  pub record Fulfilled (now : ℕ) (delivery : Delivery) (depot : Depot) (delivery' : Delivery)
      (depot' : Depot) (payload : DeliveredPayload) : Type 0 where
    pub order : Order
    pub of_depot : depot.order ≡ some order
    pub paid : any (is_verified_for order.id) depot.intents ≡ true
    pub item : OrderItem
    pub of_order : find_line delivery.order_item_id order.items ≡ some item
    pub is_completed : delivery'.status ≡ DeliveryStatus.completed
    pub one_more : delivery'.attempts ≡ suc delivery.attempts
    pub same_row : (delivery'.id ≡ delivery.id) × (delivery'.order_item_id ≡ delivery.order_item_id)
    pub stamped : delivery'.delivered_at ≡ some now
    pub is_sealed : delivery'.encrypted_payload ≡ sealed box payload.items
    pub same_file : delivery'.file_id ≡ payload.file_id
    pub same_depot :
        (depot'.order ≡ depot.order)
        × (depot'.intents ≡ depot.intents)
        × (depot'.deliveries ≡ depot.deliveries)
    pub stock_valid : IsValid depot.desk.stock → IsValid depot'.desk.stock

  finish-Fulfilled :
      (row now : ℕ) (o : Order) (i : OrderItem) (d : Delivery) (p : Depot) (d' : Delivery)
      (p' : Depot) (payload : DeliveredPayload) (x : (Delivery × Depot) × Result DeliveredPayload)
      → Kept (attempt_on d) p x.0
      → p.order ≡ some o
      → any (is_verified_for o.id) p.intents ≡ true
      → find_line d.order_item_id o.items ≡ some i
      → finish box now x ≡ ((d', p'), ok payload)
      → Fulfilled now d p d' p' payload
  finish-Fulfilled row now o i d p d' p' payload ((e, q), err error) kept of paid line h =
      absurd (cc (ap (λ y. y.1) h))
  finish-Fulfilled row now o i d p d' p' payload ((e, q), ok made) kept of paid line h =
      let same : made ≡ payload = ok-injective (ap (λ y. y.1) h) in
      subst (λ y. Fulfilled now d p y.0 y.1 payload) (ap (λ y. y.0) h)
        (record {
          order = o;
          of_depot = of;
          paid = paid;
          item = i;
          of_order = line;
          is_completed = refl;
          one_more = kept.same_attempts;
          same_row = (kept.same_id, kept.same_item);
          stamped = refl;
          is_sealed = ap (λ y. sealed box y.items) same;
          same_file = ap (λ y. y.file_id) same;
          same_depot = (kept.same_order, kept.same_intents, kept.same_deliveries);
          stock_valid = kept.stock_valid;
        })

  fulfil_line-Fulfilled :
      (row now : ℕ) (o : Order) (line : Option OrderItem) (d : Delivery) (p : Depot) (d' : Delivery)
      (p' : Depot) (payload : DeliveredPayload)
      → p.order ≡ some o
      → any (is_verified_for o.id) p.intents ≡ true
      → find_line d.order_item_id o.items ≡ line
      → fulfil_line box row now o line d p ≡ ((d', p'), ok payload)
      → Fulfilled now d p d' p' payload
  fulfil_line-Fulfilled row now o none d p d' p' payload there paid found h =
      absurd (cc (ap (λ y. y.1) h))
  fulfil_line-Fulfilled row now o (some i) d p d' p' payload there paid found h =
      finish-Fulfilled row now o i d p d' p' payload
        (build_payload box row now o i (attempt_on d) p)
        (build_payload-Kept row now o i (attempt_on d) p) there paid found h

  fulfil_order-Fulfilled :
      (row now : ℕ) (order : Option Order) (d : Delivery) (p : Depot) (d' : Delivery) (p' : Depot)
      (payload : DeliveredPayload)
      → p.order ≡ order
      → fulfil_order box row now order d p ≡ ((d', p'), ok payload)
      → Fulfilled now d p d' p' payload
  unfolding assert_paid
  fulfil_order-Fulfilled row now none d p d' p' payload there h = absurd (cc (ap (λ y. y.1) h))
  fulfil_order-Fulfilled row now (some o) d p d' p' payload there h =
      elim (Bool-cases (any (is_verified_for o.id) p.intents)) [
        | inr unpaid ↦ absurd (cc (ap (λ y. y.1) (rw (fulfil_order, unpaid) at h)))
        | inl paid ↦
            fulfil_line-Fulfilled row now o (find_line d.order_item_id o.items) d p d' p' payload
              there paid refl (rw (fulfil_order, paid) at h)
      ]

  -- An attempt that delivers, on a delivery that was not completed, is for an order with a verified
  -- payment and a line item of that order; it completes the row of the delivery, counts one attempt,
  -- seals the payload in it, and leaves the order, the payments and the table of the deliveries as
  -- they were; the items of consumed holds stay sold, and no item comes to be held twice.
  pub fulfil-Fulfilled :
      (row now : ℕ) (d : Delivery) (p : Depot) (d' : Delivery) (p' : Depot)
      (payload : DeliveredPayload)
      → (d.status == DeliveryStatus.completed) ≡ false
      → fulfil box row now d p ≡ ((d', p'), ok payload)
      → Fulfilled now d p d' p' payload
  unfolding fulfil
  fulfil-Fulfilled row now d p d' p' payload fresh h =
      fulfil_order-Fulfilled row now p.order d p d' p' payload refl (rw fresh at h)

  reads_again :
      (payload : DeliveredPayload) (d : Delivery) (row now : ℕ) (p : Depot)
      → d.status ≡ DeliveryStatus.completed
      → d.encrypted_payload ≡ sealed box payload.items
      → d.file_id ≡ payload.file_id
      → All IsLine payload.items
      → let again = plain d.delivery_type payload.items payload.file_id none in
        (reveal box now d ≡ ok (viewed now d, again))
        × (fulfil box row now d p ≡ ((d, p), ok again))
  unfolding reveal fulfil decode
  reads_again payload d row now p is_done is_sealed same lines =
      elim (Bool-cases (is_some d.first_viewed_at)) [
        | inl seen ↦ (
          rw (is_done, seen) (rw (is_sealed, decode_text-sealed payload.items lines, same) refl),
          rw is_done (rw (is_sealed, decode_text-sealed payload.items lines, same) refl),
        )
        | inr unseen ↦ (
          rw (is_done, unseen) (rw (is_sealed, decode_text-sealed payload.items lines, same) refl),
          rw is_done (rw (is_sealed, decode_text-sealed payload.items lines, same) refl),
        )
      ]

  -- What was handed over, each item of one line, is read again whenever the delivery is revealed, and
  -- a later attempt hands over the same items and changes nothing.
  pub reveal-fulfil :
      (row now row' now' : ℕ) (d : Delivery) (p : Depot) (d' : Delivery) (p' : Depot)
      (payload : DeliveredPayload)
      → (d.status == DeliveryStatus.completed) ≡ false
      → fulfil box row now d p ≡ ((d', p'), ok payload)
      → All IsLine payload.items
      → let again = plain d'.delivery_type payload.items payload.file_id none in
        (reveal box now' d' ≡ ok (viewed now' d', again))
        × (fulfil box row' now' d' p' ≡ ((d', p'), ok again))
  reveal-fulfil row now row' now' d p d' p' payload fresh h lines =
      let done = fulfil-Fulfilled row now d p d' p' payload fresh h in
      reads_again payload d' row' now' p' done.is_completed done.is_sealed done.same_file lines
