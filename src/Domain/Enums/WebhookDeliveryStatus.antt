-- ===== src/Domain/Enums/WebhookDeliveryStatus.antt =====
-- `WebhookDeliveryStatus` of app/domain/enums.py.
use professional_bot.Prelude.{ℕ, ◌≡◌, arith, Eq, code_eq}

pub data WebhookDeliveryStatus : Type 0 where
  pending delivered failed exhausted : WebhookDeliveryStatus

abbrev pub code : WebhookDeliveryStatus → ℕ
code pending = 0
code delivered = 1
code failed = 2
code exhausted = 3

pub code-injective : (s t : WebhookDeliveryStatus) → code s ≡ code t → s ≡ t
code-injective s t h = ground arith

instance abbrev pub webhook_delivery_status_eq : Eq WebhookDeliveryStatus
webhook_delivery_status_eq = code_eq code code-injective
