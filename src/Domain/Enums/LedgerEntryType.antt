-- ===== src/Domain/Enums/LedgerEntryType.antt =====
-- `LedgerEntryType` of app/domain/enums.py.
use professional_bot.Prelude.{ℕ, ◌≡◌, arith, Eq, code_eq}

pub data LedgerEntryType : Type 0 where
  order_created payment_verified payment_overpaid payment_underpaid refund : LedgerEntryType
  manual_adjustment referral_reward : LedgerEntryType

abbrev pub code : LedgerEntryType → ℕ
code order_created = 0
code payment_verified = 1
code payment_overpaid = 2
code payment_underpaid = 3
code refund = 4
code manual_adjustment = 5
code referral_reward = 6

pub code-injective : (s t : LedgerEntryType) → code s ≡ code t → s ≡ t
code-injective s t h = ground arith

instance abbrev pub ledger_entry_type_eq : Eq LedgerEntryType
ledger_entry_type_eq = code_eq code code-injective
