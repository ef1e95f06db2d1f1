-- ===== src/Domain/Enums/WebhookEvent.antt =====
-- `WebhookEvent` of app/domain/enums.py.
use professional_bot.Prelude.{ℕ, ◌≡◌, arith, Eq, code_eq}

pub data WebhookEvent : Type 0 where
  order_created payment_pending payment_detected payment_verified payment_failed : WebhookEvent
  delivery_processing delivery_completed order_completed order_cancelled : WebhookEvent

abbrev pub code : WebhookEvent → ℕ
code order_created = 0
code payment_pending = 1
code payment_detected = 2
code payment_verified = 3
code payment_failed = 4
code delivery_processing = 5
code delivery_completed = 6
code order_completed = 7
code order_cancelled = 8

pub code-injective : (s t : WebhookEvent) → code s ≡ code t → s ≡ t
code-injective s t h = ground arith

instance abbrev pub webhook_event_eq : Eq WebhookEvent
webhook_event_eq = code_eq code code-injective
