-- ===== src/Domain/Orders/Delivery.antt =====
-- `DeliveryService` of app/domain/orders/delivery.py with `DeliveryRepository` of app/db/repositories/orders.py.
-- A call that raises part of the way leaves what it has written, as the worker that catches the exception
-- sees it. A race that is lost at the UNIQUE constraint on `order_item_id` is left out.
pub mod Finishing
pub mod Lines
pub mod Dispatching
pub mod Payloads
pub mod Prepared
pub mod Failures
pub mod Finalised
use professional_bot.Prelude.{
  ℕ, zero, suc, ◌+◌, ◌*◌, ◌^◌, min, Bool, true, false, not, ◌&&◌, ◌||◌, List, [], ◌∷◌, ◌++◌, Option,
  none, some, ◌==◌, nat_eq, if◌then◌else◌, is_some, leb, ltb, seconds, any, length, filter_by, map,
  take, Result, ok, err, ◌>>=◌, ◌>>◌, raise_if, conflict, not_found, ◌≡◌,
}
use professional_bot.Prelude.Text.{Text, codes, is_empty, or_empty}
use professional_bot.Domain.Catalog.{Product}
use professional_bot.Domain.Enums.DeliveryStatus
use professional_bot.Domain.Enums.DeliveryStatus.{DeliveryStatus, delivery_status_eq}
use professional_bot.Domain.Enums.DeliveryType
use professional_bot.Domain.Enums.DeliveryType.{DeliveryType}
use professional_bot.Domain.Enums.OrderStatus
use professional_bot.Domain.Enums.OrderStatus.{OrderStatus, order_status_eq}
use professional_bot.Domain.Enums.PaymentStatus
use professional_bot.Domain.Enums.PaymentStatus.{payment_status_eq}
use professional_bot.Domain.Inventory.{InventoryItem, Stock}
use professional_bot.Domain.Inventory.Allocation.{allocate}
use professional_bot.Domain.Orders.Creation.{Desk, complete}
use professional_bot.Domain.Orders.Lifecycle.{Order, OrderItem, transition}
use professional_bot.Domain.Payments.Service.{PaymentIntent}
use Lines.{join_lines, split_lines}

-- `SecretBox` of app/core/security.py, which wraps Fernet: what is encrypted decrypts to itself, and a token is
-- not empty.
pub record SecretBox : Type 0 where
  pub encrypt : Text → Text
  pub decrypt : Text → Result Text
  pub decrypts : (t : Text) → decrypt (encrypt t) ≡ ok t
  pub not_empty : (t : Text) → is_empty (encrypt t) ≡ false

pub record Delivery : Type 0 where
  pub id : ℕ
  pub order_id : ℕ
  pub order_item_id : ℕ
  pub status : DeliveryStatus
  pub delivery_type : DeliveryType
  pub encrypted_payload : Option Text
  pub file_id : Option Text
  pub inventory_item_ids : List ℕ
  pub attempts : ℕ
  pub next_attempt_at : Option ℕ
  pub last_error : Option Text
  pub delivered_at : Option ℕ
  pub first_viewed_at : Option ℕ

pub record DeliveredPayload : Type 0 where
  pub delivery_type : DeliveryType
  pub items : List Text
  pub file_id : Option Text
  pub instructions : Option Text

-- The row of the order in question, the payments, the deliveries, and the tables of the shop.
pub record Depot : Type 0 where
  pub order : Option Order
  pub intents : List PaymentIntent
  pub deliveries : List Delivery
  pub desk : Desk

abbrev pub is_verified_for : ℕ → PaymentIntent → Bool
is_verified_for order_id i = i.order_id == order_id && i.status == PaymentStatus.verified

unfoldable pub assert_paid : Order → Depot → Result (Unit {0})
assert_paid order depot = raise_if (not (any (is_verified_for order.id) depot.intents)) conflict

unfoldable pub get_for_order_item : ℕ → List Delivery → Option Delivery
get_for_order_item i [] = none
get_for_order_item i (d ∷ ds) =
    let rest = get_for_order_item i ds in if d.order_item_id == i then some d else rest

abbrev pub new_delivery : ℕ → ℕ → Order → OrderItem → Delivery
new_delivery row now order item = record {
  id = row;
  order_id = order.id;
  order_item_id = item.id;
  status = DeliveryStatus.pending;
  delivery_type = item.delivery_type;
  encrypted_payload = none;
  file_id = none;
  inventory_item_ids = [];
  attempts = 0;
  next_attempt_at = some now;
  last_error = none;
  delivered_at = none;
  first_viewed_at = none;
}

-- The loop of `prepare`: the deliveries of the line items, and the table; `row` is the next free id.
unfoldable pub prepare_items :
    ℕ → ℕ → Order → List OrderItem → List Delivery → List Delivery × List Delivery
prepare_items row now order [] ds = ([], ds)
prepare_items row now order (item ∷ items) ds = elim (get_for_order_item item.id ds) [
  | some d ↦ let (made, table) = prepare_items row now order items ds in (d ∷ made, table)
  | none ↦
      let d = new_delivery row now order item in
      let (made, table) = prepare_items (row + 1) now order items (ds ++ d ∷ []) in
      (d ∷ made, table)
]

unfoldable pub prepare : ℕ → ℕ → Order → Depot → Result (List Delivery × Depot)
prepare row now order depot = do
  assert_paid order depot
  let (made, table) = prepare_items row now order order.items depot.deliveries
  let stored = record depot { order = some order; deliveries = table }
  if order.status == OrderStatus.payment_verified
      then start now order made stored
      else ok (made, stored)
  where
    start : ℕ → Order → List Delivery → Depot → Result (List Delivery × Depot)
    start now order made stored =
        transition now none OrderStatus.fulfilling order
        >>= (λ moved. ok (made, record stored { order = some moved }))

unfoldable pub find_product : ℕ → List Product → Option Product
find_product i [] = none
find_product i (p ∷ ps) = let rest = find_product i ps in if p.id == i then some p else rest

-- `get_with_media(item.product_id) if item.product_id else None`
abbrev pub product_of : Option ℕ → List Product → Option Product
product_of none products = none
product_of (some i) products = find_product i products

abbrev pub instructions_of : Option Product → Option Text
instructions_of none = none
instructions_of (some p) = p.delivery_instructions

abbrev pub body_of : Option Product → Text
body_of none = []
body_of (some p) = or_empty p.delivery_payload

abbrev pub file_of : Option Product → Option Text
file_of none = none
file_of (some p) = p.delivery_file_id

abbrev pub repeat : ℕ → Text → List Text
repeat zero t = []
repeat (suc n) t = t ∷ repeat n t

-- `text or default`, for a text that may be `None`.
abbrev pub text_or_default : Option Text → Text → Text
text_or_default none d = d
text_or_default (some []) d = d
text_or_default (some (c ∷ t)) d = c ∷ t

abbrev pub plain : DeliveryType → List Text → Option Text → Option Text → DeliveredPayload
plain delivery_type items file_id instructions = record {
  delivery_type = delivery_type;
  items = items;
  file_id = file_id;
  instructions = instructions;
}

unfoldable pub set_delivery : Delivery → List Delivery → List Delivery
set_delivery d [] = []
set_delivery d (e ∷ es) = (if e.id == d.id then d else e) ∷ set_delivery d es

abbrev pub with_stock : Stock → Depot → Depot
with_stock stock depot = record depot { desk = record depot.desk { stock = stock } }

abbrev pub attempt_on : Delivery → Delivery
attempt_on d = record d { status = DeliveryStatus.processing; attempts = suc d.attempts }

unfoldable pub find_line : ℕ → List OrderItem → Option OrderItem
find_line i [] = none
find_line i (x ∷ xs) = let rest = find_line i xs in if x.id == i then some x else rest

abbrev pub viewed : ℕ → Delivery → Delivery
viewed now d = if is_some d.first_viewed_at then d else record d { first_viewed_at = some now }

module _ (box : SecretBox) where
  -- `reveal_payload` of each item.
  unfoldable pub reveal_all : List InventoryItem → Result (List Text)
  reveal_all [] = ok []
  reveal_all (i ∷ items) = do
    text ← box.decrypt i.secret_payload
    texts ← reveal_all items
    ok (text ∷ texts)

  abbrev pub allocated :
      Delivery
      → Depot
      → Product
      → Result (List InventoryItem × Stock)
      → (Delivery × Depot) × Result DeliveredPayload
  allocated delivery depot product (err e) = ((delivery, depot), err e)
  allocated delivery depot product (ok (items, stock)) = (
    (record delivery { inventory_item_ids = map (λ i. i.id) items }, with_stock stock depot),
    reveal_all items
        >>= (λ texts. ok (plain DeliveryType.stock_item texts none product.delivery_instructions)),
  )

  abbrev pub stock_payload :
      ℕ
      → ℕ
      → Order
      → OrderItem
      → Delivery
      → Depot
      → Option Product
      → (Delivery × Depot) × Result DeliveredPayload
  stock_payload row now order item delivery depot none = ((delivery, depot), err not_found)
  stock_payload row now order item delivery depot (some product) =
      allocated delivery depot product
        (allocate row now product item.quantity order.id item.id depot.desk.stock)

  -- `_build_payload`
  unfoldable pub build_payload :
      ℕ → ℕ → Order → OrderItem → Delivery → Depot → (Delivery × Depot) × Result DeliveredPayload
  build_payload row now order item delivery depot =
      let product = product_of item.product_id depot.desk.products in
      elim item.delivery_type [
        | DeliveryType.stock_item ↦ stock_payload row now order item delivery depot product
        | DeliveryType.static_payload ↦ (
          (delivery, depot),
          ok (
              plain DeliveryType.static_payload
                (if is_empty (body_of product) then [] else repeat item.quantity (body_of product))
                none (instructions_of product)),
        )
        | DeliveryType.file ↦ (
          (delivery, depot),
          ok (plain DeliveryType.file [] (file_of product) (instructions_of product)),
        )
        | DeliveryType.manual ↦ (
          (delivery, depot),
          ok (
              plain DeliveryType.manual [] none (
                some (
                  text_or_default (instructions_of product)
                    (codes "Our team will complete this order shortly.")))),
        )
      ]

  -- `_decode`
  abbrev pub decode_text : Option Text → Result (List Text)
  decode_text none = ok []
  decode_text (some []) = ok []
  decode_text (some (c ∷ token)) = box.decrypt (c ∷ token) >>= (λ text. ok (split_lines text))

  unfoldable pub decode : Delivery → Result DeliveredPayload
  decode delivery =
      decode_text delivery.encrypted_payload
      >>= (λ items. ok (plain delivery.delivery_type items delivery.file_id none))

  abbrev pub sealed : List Text → Option Text
  sealed [] = none
  sealed (t ∷ ts) = some (box.encrypt (join_lines (t ∷ ts)))

  abbrev pub completed_with : ℕ → DeliveredPayload → Delivery → Delivery
  completed_with now payload delivery = record delivery {
    encrypted_payload = sealed payload.items;
    file_id = payload.file_id;
    status = DeliveryStatus.completed;
    delivered_at = some now;
    last_error = none;
  }

  -- The end of `fulfil`.
  abbrev pub finish :
      ℕ
      → (Delivery × Depot) × Result DeliveredPayload
      → (Delivery × Depot) × Result DeliveredPayload
  finish now ((delivery, depot), err e) = ((delivery, depot), err e)
  finish now ((delivery, depot), ok payload) =
      ((completed_with now payload delivery, depot), ok payload)

  abbrev pub fulfil_line :
      ℕ
      → ℕ
      → Order
      → Option OrderItem
      → Delivery
      → Depot
      → (Delivery × Depot) × Result DeliveredPayload
  fulfil_line row now order none delivery depot = ((delivery, depot), err not_found)
  fulfil_line row now order (some item) delivery depot =
      finish now (build_payload row now order item (attempt_on delivery) depot)

  abbrev pub fulfil_order :
      ℕ → ℕ → Option Order → Delivery → Depot → (Delivery × Depot) × Result DeliveredPayload
  fulfil_order row now none delivery depot = ((delivery, depot), err not_found)
  fulfil_order row now (some order) delivery depot = elim (assert_paid order depot) [
    | err e ↦ ((delivery, depot), err e)
    | ok _ ↦ fulfil_line row now order (find_line delivery.order_item_id order.items) delivery depot
  ]

  -- `fulfil`: the delivery and the depot as the call leaves them, and what it returns or raises.
  unfoldable pub fulfil : ℕ → ℕ → Delivery → Depot → (Delivery × Depot) × Result DeliveredPayload
  fulfil row now delivery depot =
      if delivery.status == DeliveryStatus.completed
      then ((delivery, depot), decode delivery)
      else fulfil_order row now depot.order delivery depot

  unfoldable pub reveal : ℕ → Delivery → Result (Delivery × DeliveredPayload)
  reveal now delivery =
      if not (delivery.status == DeliveryStatus.completed)
      then err conflict
      else decode (viewed now delivery) >>= (λ payload. ok (viewed now delivery, payload))
