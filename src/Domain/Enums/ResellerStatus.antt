-- ===== src/Domain/Enums/ResellerStatus.antt =====
-- `ResellerStatus` of app/domain/enums.py.
use professional_bot.Prelude.{ℕ, ◌≡◌, arith, Eq, code_eq}

pub data ResellerStatus : Type 0 where
  pending active suspended revoked : ResellerStatus

abbrev pub code : ResellerStatus → ℕ
code pending = 0
code active = 1
code suspended = 2
code revoked = 3

pub code-injective : (s t : ResellerStatus) → code s ≡ code t → s ≡ t
code-injective s t h = ground arith

instance abbrev pub reseller_status_eq : Eq ResellerStatus
reseller_status_eq = code_eq code code-injective
