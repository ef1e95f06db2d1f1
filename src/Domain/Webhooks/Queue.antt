-- ===== src/Domain/Webhooks/Queue.antt =====
-- Which deliveries `dispatch_event` of app/domain/resellers/service.py queues.
use professional_bot.Prelude.{
  ℕ, suc, ◌≡◌, refl, sym, ◌∙◌, subst₂, arith, Bool, true, ◌||◌, List, [], ◌∷◌, ◌++◌, All, Option,
  none, some, nat_eq, beq_refl, any, Bool-cases, inl, inr,
}
use professional_bot.Prelude.Text.{Text}
use professional_bot.Domain.Enums.WebhookEvent.{WebhookEvent, webhook_event_eq}
use professional_bot.Domain.Orders.Lifecycle.{Order}
use professional_bot.Domain.Webhooks.{
  WebhookEndpoint, WebhookDelivery, EventId, is_row_of, new_webhook_delivery, enqueue, enqueue_all,
  dispatch_to, dispatch_event, active_for_event, event_id_of,
}

any-append :
    (p : WebhookDelivery → Bool) (xs ys : List WebhookDelivery)
    → any p (xs ++ ys) ≡ (any p xs || any p ys)
any-append p [] ys = refl
any-append p (x ∷ xs) ys = ground (arith, any-append p xs ys)

own_row :
    (now row endpoint_id : ℕ) (event_id : EventId) (order_id : ℕ) (payload : Text)
    → is_row_of endpoint_id event_id
        (new_webhook_delivery now row endpoint_id event_id order_id payload)
      ≡ true
own_row now row endpoint_id event_id order_id payload =
    rw (beq_refl endpoint_id, beq_refl event_id.event, beq_refl event_id.digits) refl

-- A row that is there stays there.
enqueue-any :
    (p : WebhookDelivery → Bool) (now row i : ℕ) (event_id : EventId) (order_id : ℕ)
    (payload : Text) (ds : List WebhookDelivery)
    → any p ds ≡ true
    → any p (enqueue now row i event_id order_id payload ds).1 ≡ true
unfolding enqueue
enqueue-any p now row i event_id order_id payload ds h =
    elim (Bool-cases (any (is_row_of i event_id) ds)) [
      | inl there ↦ rw there h
      | inr new ↦ rw new (
          any-append p ds (new_webhook_delivery now row i event_id order_id payload ∷ [])
          ∙ ground (arith, h))
    ]

enqueue-row :
    (now row i : ℕ) (event_id : EventId) (order_id : ℕ) (payload : Text) (ds : List WebhookDelivery)
    → any (is_row_of i event_id) (enqueue now row i event_id order_id payload ds).1 ≡ true
unfolding enqueue
enqueue-row now row i event_id order_id payload ds =
    elim (Bool-cases (any (is_row_of i event_id) ds)) [
      | inl there ↦ rw there there
      | inr new ↦
          let added = own_row now row i event_id order_id payload in
          rw new (
            any-append (is_row_of i event_id) ds
              (new_webhook_delivery now row i event_id order_id payload ∷ [])
            ∙ rw (new, added) refl)
    ]

enqueue_all-any :
    (p : WebhookDelivery → Bool) (now row : ℕ) (es : List WebhookEndpoint) (event_id : EventId)
    (order_id : ℕ) (payload : Text) (ds : List WebhookDelivery)
    → any p ds ≡ true
    → any p (enqueue_all now row es event_id order_id payload ds).1 ≡ true
unfolding enqueue_all
enqueue_all-any p now row [] event_id order_id payload ds h = h
enqueue_all-any p now row (e ∷ es) event_id order_id payload ds h =
    enqueue_all-any p now (suc row) es event_id order_id payload _
      (enqueue-any p now row e.id event_id order_id payload ds h)

-- Every endpoint has a row of the event.
abbrev pub HasRows : EventId → List WebhookEndpoint → List WebhookDelivery → Type 0
HasRows event_id es ds = All (λ e. any (is_row_of e.id event_id) ds ≡ true) es

enqueue_all-HasRows :
    (now row : ℕ) (es : List WebhookEndpoint) (event_id : EventId) (order_id : ℕ) (payload : Text)
    (ds : List WebhookDelivery)
    → HasRows event_id es (enqueue_all now row es event_id order_id payload ds).1
unfolding enqueue_all
enqueue_all-HasRows now row [] event_id order_id payload ds = tt
enqueue_all-HasRows now row (e ∷ es) event_id order_id payload ds = (
  enqueue_all-any (is_row_of e.id event_id) now (suc row) es event_id order_id payload _
      (enqueue-row now row e.id event_id order_id payload ds),
  enqueue_all-HasRows now (suc row) es event_id order_id payload _,
)

enqueue_all-idle :
    (now row : ℕ) (es : List WebhookEndpoint) (event_id : EventId) (order_id : ℕ) (payload : Text)
    (ds : List WebhookDelivery)
    → HasRows event_id es ds
    → enqueue_all now row es event_id order_id payload ds ≡ (0, ds)
unfolding enqueue_all enqueue
enqueue_all-idle now row [] event_id order_id payload ds rows = refl
enqueue_all-idle now row (e ∷ es) event_id order_id payload ds (here, rows) =
    rw (here, enqueue_all-idle now (suc row) es event_id order_id payload ds rows) refl

dispatch_to_again :
    (now now' row row' : ℕ) (event : WebhookEvent) (order_id : ℕ) (reseller_id : Option ℕ)
    (payload payload' : Text) (endpoints : List WebhookEndpoint) (deliveries : List WebhookDelivery)
    → dispatch_to now' row' event order_id reseller_id payload' endpoints
        (dispatch_to now row event order_id reseller_id payload endpoints deliveries).1
      ≡ (0, (dispatch_to now row event order_id reseller_id payload endpoints deliveries).1)
unfolding dispatch_to
dispatch_to_again now now' row row' event o none payload payload' endpoints deliveries = refl
dispatch_to_again now now' row row' event o (some i) payload payload' endpoints deliveries =
    let subscribed = active_for_event i event endpoints in
    enqueue_all-idle now' row' subscribed (event_id_of event o) o payload' _
      (enqueue_all-HasRows now row subscribed (event_id_of event o) o payload deliveries)

-- An event of an order that was dispatched once queues nothing when it is dispatched again for the order, in whatever state
-- the order is then, and whatever the payload: the rows stay as they are.
pub dispatch_event_again :
    (now now' row row' : ℕ) (event : WebhookEvent) (order order' : Order) (payload payload' : Text)
    (endpoints : List WebhookEndpoint) (deliveries : List WebhookDelivery)
    → order'.id ≡ order.id
    → order'.reseller_id ≡ order.reseller_id
    → dispatch_event now' row' event order' payload' endpoints
        (dispatch_event now row event order payload endpoints deliveries).1
      ≡ (0, (dispatch_event now row event order payload endpoints deliveries).1)
unfolding dispatch_event
dispatch_event_again now now' row row' event order order' payload payload' endpoints deliveries same
      owner =
    subst₂
      (λ i r.
        dispatch_to now' row' event i r payload' endpoints
          (dispatch_to now row event order.id order.reseller_id payload endpoints deliveries).1
        ≡ (
          0,
          (dispatch_to now row event order.id order.reseller_id payload endpoints deliveries).1,
        ))
      (sym same) (sym owner)
      (dispatch_to_again now now' row row' event order.id order.reseller_id payload payload'
        endpoints deliveries)
