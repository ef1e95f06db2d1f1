-- ===== src/Domain/Enums/ApiScope.antt =====
-- `ApiScope` of app/domain/enums.py.
use professional_bot.Prelude.{ℕ, ◌≡◌, arith, Eq, code_eq}

pub data ApiScope : Type 0 where
  products_read orders_create orders_read payments_read deliveries_read : ApiScope
  webhooks_manage : ApiScope

abbrev pub code : ApiScope → ℕ
code products_read = 0
code orders_create = 1
code orders_read = 2
code payments_read = 3
code deliveries_read = 4
code webhooks_manage = 5

pub code-injective : (s t : ApiScope) → code s ≡ code t → s ≡ t
code-injective s t h = ground arith

instance abbrev pub api_scope_eq : Eq ApiScope
api_scope_eq = code_eq code code-injective
