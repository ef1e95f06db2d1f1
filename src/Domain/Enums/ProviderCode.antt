-- ===== src/Domain/Enums/ProviderCode.antt =====
-- `ProviderCode` of app/domain/enums.py.
use professional_bot.Prelude.{ℕ, ◌≡◌, arith, Eq, code_eq}

pub data ProviderCode : Type 0 where
  binance binance_pay bybit okx tron evm ton solana utxo : ProviderCode

abbrev pub code : ProviderCode → ℕ
code binance = 0
code binance_pay = 1
code bybit = 2
code okx = 3
code tron = 4
code evm = 5
code ton = 6
code solana = 7
code utxo = 8

pub code-injective : (s t : ProviderCode) → code s ≡ code t → s ≡ t
code-injective s t h = ground arith

instance abbrev pub provider_code_eq : Eq ProviderCode
provider_code_eq = code_eq code code-injective
