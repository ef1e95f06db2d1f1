-- ===== src/Domain/Enums/RoleName.antt =====
-- `RoleName` of app/domain/enums.py.
use professional_bot.Prelude.{ℕ, ◌≡◌, arith, Eq, code_eq}

pub data RoleName : Type 0 where
  super_admin admin payment_manager product_manager support_agent analyst : RoleName
  reseller_manager : RoleName

abbrev pub code : RoleName → ℕ
code super_admin = 0
code admin = 1
code payment_manager = 2
code product_manager = 3
code support_agent = 4
code analyst = 5
code reseller_manager = 6

pub code-injective : (s t : RoleName) → code s ≡ code t → s ≡ t
code-injective s t h = ground arith

instance abbrev pub role_name_eq : Eq RoleName
role_name_eq = code_eq code code-injective
