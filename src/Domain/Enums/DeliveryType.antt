-- ===== src/Domain/Enums/DeliveryType.antt =====
-- `DeliveryType` of app/domain/enums.py.
use professional_bot.Prelude.{ℕ, ◌≡◌, arith, Eq, code_eq}

pub data DeliveryType : Type 0 where
  stock_item static_payload file manual : DeliveryType

abbrev pub code : DeliveryType → ℕ
code stock_item = 0
code static_payload = 1
code file = 2
code manual = 3

pub code-injective : (s t : DeliveryType) → code s ≡ code t → s ≡ t
code-injective s t h = ground arith

instance abbrev pub delivery_type_eq : Eq DeliveryType
delivery_type_eq = code_eq code code-injective
