-- ===== src/Domain/Catalog.antt =====
-- `Product` of app/db/models/catalog.py: the columns that the services of inventory, orders and delivery
-- read. Prices are in units of 10^-8, the scale of the columns.
use professional_bot.Prelude.{ℕ, Option}
use professional_bot.Prelude.Int.{ℤ}
use professional_bot.Prelude.Text.{Text}
use professional_bot.Domain.Enums.DeliveryType.{DeliveryType}
use professional_bot.Domain.Enums.ProductStatus.{ProductStatus}

pub record Product : Type 0 where
  pub id : ℕ
  pub category_id : Option ℕ
  pub price : ℤ
  pub reseller_price : Option ℤ
  pub currency : Text
  pub status : ProductStatus
  pub delivery_type : DeliveryType
  pub delivery_payload : Option Text
  pub delivery_file_id : Option Text
  pub delivery_instructions : Option Text
  pub min_quantity : ℕ
  pub max_quantity : Option ℕ
  pub stock_override : Option ℤ
  pub low_stock_threshold : ℤ
  pub sales_count : ℕ
