-- ===== src/Db/Transactions.antt =====
-- `TransactionRepository` of app/db/repositories/payments.py: observed transactions, one row for each
-- transfer. Of a row, the key and the fields that a later observation refreshes are kept. An insert
-- that loses a race, and is then made again as an update, is left out.
use professional_bot.Prelude.{
  ℕ, zero, suc, Bool, ◌&&◌, List, [], ◌∷◌, Option, none, some, ◌==◌, nat_eq, if◌then◌else◌,
}
use professional_bot.Prelude.Int.{ℤ, ltb_ℤ}
use professional_bot.Prelude.Text.{Text, text_eq, text_or}
use professional_bot.Domain.Enums.NetworkCode.{NetworkCode, network_code_eq}
use professional_bot.Domain.Enums.ProviderCode.{ProviderCode, provider_code_eq}

pub record BlockchainTransaction : Type 0 where
  pub network : NetworkCode
  pub txid : Text
  pub log_index : ℕ
  pub amount_units : ℤ
  pub confirmations : ℤ
  pub is_successful : Bool
  pub block_number : Option ℕ
  pub block_time : Option ℕ

pub record ProviderTransaction : Type 0 where
  pub provider_code : ProviderCode
  pub external_id : Text
  pub status : Text
  pub confirmations : ℤ

abbrev same_transfer : BlockchainTransaction → BlockchainTransaction → Bool
same_transfer a b = a.network == b.network && a.txid == b.txid && a.log_index == b.log_index

-- `new or old` of a number: zero is false.
abbrev number_or : Option ℕ → Option ℕ → Option ℕ
number_or none old = old
number_or (some zero) old = old
number_or (some (suc n)) old = some (suc n)

-- `new or old` of a time.
abbrev time_or : Option ℕ → Option ℕ → Option ℕ
time_or none old = old
time_or (some t) old = some t

abbrev refresh : BlockchainTransaction → BlockchainTransaction → BlockchainTransaction
refresh new existing = record existing {
  confirmations =
      if ltb_ℤ existing.confirmations new.confirmations
      then new.confirmations
      else existing.confirmations;
  is_successful = new.is_successful;
  block_number = number_or new.block_number existing.block_number;
  block_time = time_or new.block_time existing.block_time;
}

unfoldable pub upsert_blockchain :
    BlockchainTransaction → List BlockchainTransaction → List BlockchainTransaction
upsert_blockchain new [] = new ∷ []
upsert_blockchain new (row ∷ rows) =
    let rest = upsert_blockchain new rows in
    if same_transfer row new then refresh new row ∷ rows else row ∷ rest

unfoldable pub upsert_provider :
    ProviderTransaction → List ProviderTransaction → List ProviderTransaction
upsert_provider new [] = new ∷ []
upsert_provider new (row ∷ rows) =
    let rest = upsert_provider new rows in
    if row.provider_code == new.provider_code && row.external_id == new.external_id
    then record row { status = text_or new.status row.status; confirmations = new.confirmations }
      ∷ rows
    else row ∷ rest
