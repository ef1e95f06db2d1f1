-- ===== src/Domain/Enums/DeliveryStatus.antt =====
-- `DeliveryStatus` of app/domain/enums.py.
use professional_bot.Prelude.{ℕ, ◌≡◌, arith, Eq, code_eq}

pub data DeliveryStatus : Type 0 where
  pending processing completed failed cancelled : DeliveryStatus

abbrev pub code : DeliveryStatus → ℕ
code pending = 0
code processing = 1
code completed = 2
code failed = 3
code cancelled = 4

pub code-injective : (s t : DeliveryStatus) → code s ≡ code t → s ≡ t
code-injective s t h = ground arith

instance abbrev pub delivery_status_eq : Eq DeliveryStatus
delivery_status_eq = code_eq code code-injective
