-- ===== src/Domain/Payments/Service.antt =====
-- `PaymentService` of app/domain/payments/service.py: a payment's state, what a call of the service
-- reads and writes with it, and the steps that all of its operations share. A call that raises rolls
-- the unit of work back, so that it is the state before it; `utcnow()` is read once in a call.
-- `iter` is the order of the successor sets (StateMachines).
pub mod Outcomes
pub mod Record
pub mod Verify
pub mod Manual
pub mod Advance
pub mod Keeps
pub mod Claims
pub mod Crediting
pub mod Completeness
pub mod Approval
pub mod Expiry
pub mod Defects
use professional_bot.Prelude.{
  ℕ, zero, suc, ◌+◌, Bool, true, false, not, ◌&&◌, ◌||◌, List, [], ◌∷◌, ◌++◌, Option, none, some,
  ◌==◌, nat_eq, if◌then◌else◌, length, ltb, contains, Result, ok, err, ◌>>=◌, ◌>>◌, conflict,
  validation,
}
use professional_bot.Prelude.Int.{ℤ, pos}
use professional_bot.Prelude.Text.{Text, is_empty, or_empty, strip}
use professional_bot.Core.Money.{Decimal}
use professional_bot.Db.Consumptions.{Consumption}
use professional_bot.Db.Ledger.{Ledger}
use professional_bot.Db.Reconciliation.{Anomaly}
use professional_bot.Db.Transactions.{BlockchainTransaction, ProviderTransaction}
use professional_bot.Domain.Enums.NetworkCode.{NetworkCode}
use professional_bot.Domain.Enums.ProviderCode.{
  ProviderCode, provider_code_eq, evm, solana, binance_pay,
}
use professional_bot.Domain.Enums.PaymentStatus
use professional_bot.Domain.Enums.PaymentStatus.{PaymentStatus, payment_status_eq}
use professional_bot.Domain.Enums.VerificationOutcome.{VerificationOutcome}
use professional_bot.Domain.Orders.Lifecycle.{Order}
use professional_bot.Domain.Payments.Types.{PaymentExpectation}
use professional_bot.Domain.Payments.Verification.{Check}
use professional_bot.Domain.StateMachines.{assert_payment_transition, payment_path}

-- The columns of a payment intent that the service reads or writes.
pub record PaymentIntent : Type 0 where
  pub id : ℕ
  pub reference : Text
  pub order_id : ℕ
  pub payment_method_id : ℕ
  pub order_amount : ℤ
  pub order_currency : Text
  pub quote_rate : ℤ
  pub provider_code : ProviderCode
  pub network : NetworkCode
  pub status : PaymentStatus
  pub expected_amount : Decimal
  pub expected_amount_units : ℤ
  pub asset : Text
  pub asset_decimals : ℕ
  pub destination : Text
  pub destination_normalized : Text
  pub token_contract : Option Text
  pub memo : Option Text
  pub required_confirmations : ℤ
  pub created_at : ℕ
  pub expires_at : ℕ
  pub submitted_at : Option ℕ
  pub detected_at : Option ℕ
  pub verified_at : Option ℕ
  pub failed_at : Option ℕ
  pub next_poll_at : Option ℕ
  pub received_amount : Option Decimal
  pub received_amount_units : Option ℤ
  pub confirmations : ℤ
  pub verification_attempts : ℕ
  pub last_outcome : Option VerificationOutcome
  pub failure_reason : Option Text
  pub review_reason : Option Text

pub record PaymentAttempt : Type 0 where
  pub submitted_txid : Option Text
  pub submitted_at : ℕ
  pub verification_count : ℕ
  pub last_outcome : Option VerificationOutcome

-- A row of the verification attempts: the outcome of a pass, and its checks.
pub record Evidence : Type 0 where
  pub payment_intent_id : ℕ
  pub outcome : VerificationOutcome
  pub checks : List (Check × Bool)

-- What a call works on: the payment, its order and its latest attempt, and the shared tables.
pub record Session : Type 0 where
  pub intent : PaymentIntent
  pub order : Option Order
  pub attempt : Option PaymentAttempt
  pub consumptions : List Consumption
  pub ledger : Ledger
  pub anomalies : List Anomaly
  pub evidence : List Evidence
  pub chain_rows : List BlockchainTransaction
  pub provider_rows : List ProviderTransaction
  pub provider_healthy : Option Bool

unfoldable pub expectation : PaymentIntent → PaymentExpectation
expectation intent = record {
  provider = intent.provider_code;
  network = intent.network;
  asset = intent.asset;
  asset_decimals = intent.asset_decimals;
  expected_amount = intent.expected_amount;
  expected_amount_units = intent.expected_amount_units;
  destination = intent.destination;
  destination_normalized = intent.destination_normalized;
  token_contract = intent.token_contract;
  memo = intent.memo;
  required_confirmations = intent.required_confirmations;
  created_at = intent.created_at;
  expires_at = intent.expires_at;
}

abbrev pub set_status : PaymentStatus → Session → Session
set_status target s = record s { intent = record s.intent { status = target } }

-- `_transition`
unfoldable pub transition_intent : PaymentStatus → Session → Result Session
transition_intent target s = do
  assert_payment_transition s.intent.status target
  ok (set_status target s)

-- The `for` loop of `_advance`.
unfoldable pub walk : List PaymentStatus → Session → Result Session
unfolding transition_intent
walk [] s = ok s
walk (step ∷ steps) s = do moved ← transition_intent step s; walk steps moved

-- `registry.requires_customer_reference`
unfoldable pub requires_customer_reference : ProviderCode → Bool
requires_customer_reference p = contains (evm ∷ solana ∷ binance_pay ∷ []) p

abbrev or_now : Option ℕ → ℕ → Option ℕ
or_now none now = some now
or_now (some t) now = some t

-- `(reference or "").strip() or None`
abbrev pub submitted_reference : Option Text → Option Text
submitted_reference reference =
    let text = strip (or_empty reference) in if is_empty text then none else some text

abbrev new_attempt : ℕ → Option Text → PaymentAttempt
new_attempt now reference = record {
  submitted_txid = submitted_reference reference;
  submitted_at = now;
  verification_count = 0;
  last_outcome = none;
}

abbrev noted : ℕ → Option Text → Session → Session
noted now reference s = record s {
  attempt = some (new_attempt now reference);
  intent = record s.intent { submitted_at = or_now s.intent.submitted_at now };
}

-- `next_poll_at`
abbrev pub poll_at : ℕ → Session → Session
poll_at t s = record s { intent = record s.intent { next_poll_at = some t } }

unfoldable pub submit_payment : ℕ → Option Text → Session → Result Session
unfolding strip requires_customer_reference PaymentStatus.is_open transition_intent
submit_payment now reference s =
    let text = strip (or_empty reference) in
    if s.intent.status == PaymentStatus.verified
    then err conflict
    else if not (PaymentStatus.is_open s.intent.status)
    then err conflict
    else if ltb 160 (length text)
    then err validation
    else if requires_customer_reference s.intent.provider_code && is_empty text
    then err validation
    else do
      moved ← transition_intent PaymentStatus.submitted (noted now reference s)
      ok (poll_at now moved)

module _ (iter : PaymentStatus → List PaymentStatus) where
  -- `_advance`
  unfoldable pub advance : PaymentStatus → Session → Result Session
  unfolding walk
  advance target s = do path ← payment_path iter s.intent.status target; walk path s
