-- ===== src/Domain/Enums/NetworkCode.antt =====
-- `NetworkCode` of app/domain/enums.py.
use professional_bot.Prelude.{ℕ, ◌≡◌, arith, Eq, code_eq}

pub data NetworkCode : Type 0 where
  trc20 bep20 erc20 ton sol avaxc arbitrum polygon btc ltc exchange_internal : NetworkCode

abbrev pub code : NetworkCode → ℕ
code trc20 = 0
code bep20 = 1
code erc20 = 2
code ton = 3
code sol = 4
code avaxc = 5
code arbitrum = 6
code polygon = 7
code btc = 8
code ltc = 9
code exchange_internal = 10

pub code-injective : (s t : NetworkCode) → code s ≡ code t → s ≡ t
code-injective s t h = ground arith

instance abbrev pub network_code_eq : Eq NetworkCode
network_code_eq = code_eq code code-injective
