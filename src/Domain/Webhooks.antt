-- ===== src/Domain/Webhooks.antt =====
-- The webhooks of app/domain/resellers/service.py and app/workers/webhooks/dispatcher.py, with their repositories in
-- app/db/repositories/resellers.py and models in app/db/models/reseller.py. Whether a URL is safe, and what the endpoint
-- answers, are arguments, and so are the two directions of the secret box, which raise where the key is missing, wrong
-- or changed; the signature, the wording of errors and the duration of a call are left out.
pub mod Worker
pub mod Queue
pub mod Attempts
use professional_bot.Prelude.{
  ℕ, zero, suc, ◌+◌, ◌-◌, ◌/◌, ◌^◌, min, Bool, true, false, not, ◌&&◌, ◌||◌, List, [], ◌∷◌, ◌++◌,
  Option, none, some, Result, ok, err, raise_if, ◌>>◌, ◌>>=◌, ◌==◌, nat_eq, leb, ltb, any,
  filter_by, contains, map, if◌then◌else◌, validation, seconds,
}
use professional_bot.Prelude.Text.{Text}
use professional_bot.Domain.Enums.WebhookEvent.{WebhookEvent, webhook_event_eq}
use professional_bot.Domain.Enums.WebhookDeliveryStatus
use professional_bot.Domain.Enums.WebhookDeliveryStatus.{
  WebhookDeliveryStatus, webhook_delivery_status_eq,
}
use professional_bot.Domain.Orders.Lifecycle.{Order}

pub record WebhookEndpoint : Type 0 where
  pub id : ℕ
  pub reseller_id : ℕ
  pub url : Text
  pub encrypted_secret : Text
  pub events : List WebhookEvent
  pub is_active : Bool
  pub consecutive_failures : ℕ
  pub disabled_at : Option ℕ
  pub last_success_at : Option ℕ
  pub last_failure_at : Option ℕ
  pub last_status_code : Option ℕ

-- `f"evt_{event}_{order.id.hex[:12]}"`: the event, and the first twelve of the 32 digits of the order's id.
pub record EventId : Type 0 where
  pub event : WebhookEvent
  pub digits : ℕ

abbrev pub event_id_of : WebhookEvent → ℕ → EventId
event_id_of event order_id = record { event = event; digits = order_id / 2 ^ 80 }

pub record WebhookDelivery : Type 0 where
  pub id : ℕ
  pub endpoint_id : ℕ
  pub event_id : EventId
  pub order_id : ℕ
  pub payload : Text
  pub status : WebhookDeliveryStatus
  pub attempts : ℕ
  pub next_attempt_at : Option ℕ
  pub delivery_status_code : Option ℕ
  pub delivered_at : Option ℕ

abbrev pub no_events : List WebhookEvent → Bool
no_events [] = true
no_events (e ∷ events) = false

-- `register_webhook`, of the events that were read; a name that is no event is `none`.
abbrev pub valid_events : List (Option WebhookEvent) → List WebhookEvent
valid_events [] = []
valid_events (none ∷ events) = valid_events events
valid_events (some e ∷ events) = e ∷ valid_events events

abbrev pub new_endpoint : ℕ → ℕ → Text → Text → List WebhookEvent → WebhookEndpoint
new_endpoint row reseller_id url encrypted_secret events = record {
  id = row;
  reseller_id = reseller_id;
  url = url;
  encrypted_secret = encrypted_secret;
  events = events;
  is_active = true;
  consecutive_failures = 0;
  disabled_at = none;
  last_success_at = none;
  last_failure_at = none;
  last_status_code = none;
}

abbrev pub asked : List (Option WebhookEvent) → Bool
asked [] = false
asked (e ∷ events) = true

-- The endpoint with its secret, which was drawn for it, and the table.
unfoldable pub register_webhook :
    (is_safe : Text → Bool) (encrypt : Text → Result Text) (secret : Text)
    → ℕ
    → ℕ
    → Text
    → List (Option WebhookEvent)
    → List WebhookEndpoint
    → Result ((WebhookEndpoint × Text) × List WebhookEndpoint)
register_webhook is_safe encrypt secret row reseller_id url events endpoints = do
  raise_if (not (is_safe url)) validation
  raise_if (asked events && no_events (valid_events events)) validation
  encrypted ← encrypt secret
  let endpoint = new_endpoint row reseller_id url encrypted (valid_events events)
  ok ((endpoint, secret), endpoints ++ endpoint ∷ [])

-- `active_for_event`; an endpoint without events has subscribed to all.
unfoldable pub active_for_event : ℕ → WebhookEvent → List WebhookEndpoint → List WebhookEndpoint
active_for_event reseller_id event endpoints =
    filter_by
      (λ e.
        e.reseller_id == reseller_id
        && e.is_active
        && (no_events e.events || contains e.events event))
      endpoints

abbrev pub is_row_of : ℕ → EventId → WebhookDelivery → Bool
is_row_of endpoint_id event_id d =
    d.endpoint_id == endpoint_id
    && d.event_id.event == event_id.event
    && d.event_id.digits == event_id.digits

abbrev pub new_webhook_delivery : ℕ → ℕ → ℕ → EventId → ℕ → Text → WebhookDelivery
new_webhook_delivery now row endpoint_id event_id order_id payload = record {
  id = row;
  endpoint_id = endpoint_id;
  event_id = event_id;
  order_id = order_id;
  payload = payload;
  status = WebhookDeliveryStatus.pending;
  attempts = 0;
  next_attempt_at = some now;
  delivery_status_code = none;
  delivered_at = none;
}

-- `enqueue`: none where the endpoint has a row of the event.
unfoldable pub enqueue :
    ℕ → ℕ → ℕ → EventId → ℕ → Text → List WebhookDelivery → ℕ × List WebhookDelivery
enqueue now row endpoint_id event_id order_id payload deliveries =
    if any (is_row_of endpoint_id event_id) deliveries
    then (0, deliveries)
    else (1, deliveries ++ new_webhook_delivery now row endpoint_id event_id order_id payload ∷ [])

-- The loop of `dispatch_event`; it counts the rows that are new.
unfoldable pub enqueue_all :
    ℕ
    → ℕ
    → List WebhookEndpoint
    → EventId
    → ℕ
    → Text
    → List WebhookDelivery
    → ℕ × List WebhookDelivery
enqueue_all now row [] event_id order_id payload deliveries = (0, deliveries)
enqueue_all now row (e ∷ endpoints) event_id order_id payload deliveries =
    let first = enqueue now row e.id event_id order_id payload deliveries in
    let rest = enqueue_all now (suc row) endpoints event_id order_id payload first.1 in
    (first.0 + rest.0, rest.1)

-- `dispatch_event`; `row` is the first new id.
unfoldable pub dispatch_to :
    ℕ
    → ℕ
    → WebhookEvent
    → (order_id : ℕ) (reseller_id : Option ℕ) → Text
    → List WebhookEndpoint
    → List WebhookDelivery
    → ℕ × List WebhookDelivery
dispatch_to now row event order_id none payload endpoints deliveries = (0, deliveries)
dispatch_to now row event order_id (some reseller_id) payload endpoints deliveries =
    enqueue_all now row (active_for_event reseller_id event endpoints) (event_id_of event order_id)
      order_id payload deliveries

unfoldable pub dispatch_event :
    ℕ
    → ℕ
    → WebhookEvent
    → Order
    → Text
    → List WebhookEndpoint
    → List WebhookDelivery
    → ℕ × List WebhookDelivery
dispatch_event now row event order payload endpoints deliveries =
    dispatch_to now row event order.id order.reseller_id payload endpoints deliveries
