-- ===== src/Domain/Payments/Types.antt =====
-- app/domain/payments/types.py: what a payment is checked against, and what a provider reports.
-- Times are microseconds since the epoch. Raw payloads and display fields that no check reads are
-- left out.
use professional_bot.Prelude.{ℕ, Bool, Option, none, some}
use professional_bot.Prelude.Int.{ℤ}
use professional_bot.Prelude.Text.{Text}
use professional_bot.Core.Money.{Decimal, from_base_units}
use professional_bot.Domain.Enums.NetworkCode.{NetworkCode}
use professional_bot.Domain.Enums.ProviderCode.{ProviderCode}

pub record PaymentExpectation : Type 0 where
  pub provider : ProviderCode
  pub network : NetworkCode
  pub asset : Text
  pub asset_decimals : ℕ
  pub expected_amount : Decimal
  pub expected_amount_units : ℤ
  pub destination : Text
  pub destination_normalized : Text
  pub token_contract : Option Text
  pub memo : Option Text
  pub required_confirmations : ℤ
  pub created_at : ℕ
  pub expires_at : ℕ

pub record ObservedTransaction : Type 0 where
  pub provider : ProviderCode
  pub network : NetworkCode
  pub external_id : Text
  pub asset : Text
  pub amount_units : ℤ
  pub decimals : ℕ
  pub to_address : Text
  pub to_address_normalized : Text
  pub is_successful : Bool
  pub observed_at : ℕ
  pub log_index : ℕ
  pub token_contract : Option Text
  pub memo : Option Text
  pub reference : Option Text
  pub confirmations : ℤ
  pub block_time : Option ℕ
  pub block_number : Option ℕ
  pub txid : Option Text
  pub status_label : Text

unfoldable pub amount : ObservedTransaction → Decimal
unfolding from_base_units
amount tx = from_base_units tx.amount_units tx.decimals

abbrev or_default : Option ℕ → ℕ → ℕ
or_default none d = d
or_default (some t) d = t

unfoldable pub timestamp : ObservedTransaction → ℕ
timestamp tx = or_default tx.block_time tx.observed_at
