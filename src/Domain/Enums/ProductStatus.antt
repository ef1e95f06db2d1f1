-- ===== src/Domain/Enums/ProductStatus.antt =====
-- `ProductStatus` of app/domain/enums.py.
use professional_bot.Prelude.{ℕ, ◌≡◌, arith, Eq, code_eq}

pub data ProductStatus : Type 0 where
  draft active inactive hidden archived : ProductStatus

abbrev pub code : ProductStatus → ℕ
code draft = 0
code active = 1
code inactive = 2
code hidden = 3
code archived = 4

pub code-injective : (s t : ProductStatus) → code s ≡ code t → s ≡ t
code-injective s t h = ground arith

instance abbrev pub product_status_eq : Eq ProductStatus
product_status_eq = code_eq code code-injective
