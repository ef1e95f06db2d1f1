-- ===== src/Domain/Payments/Service/Verify.antt =====
-- `verify`, `_claim` and `_persist_transaction` of app/domain/payments/service.py. What the provider's
-- adapter answers is an argument, and so are SHA-256, the order of the successor sets and the wording
-- of a decision.
use professional_bot.Prelude.{
  ℕ, Bool, true, false, ◌||◌, List, [], ◌∷◌, ◌++◌, Option, none, some, ◌==◌, nat_eq, if◌then◌else◌,
  contains, Result, ok, err, ◌>>=◌, not_found,
}
use professional_bot.Prelude.Int.{pos}
use professional_bot.Prelude.Text.{Text, is_empty, or_empty, text_or}
use professional_bot.Db.Consumptions.{Consumption, claim}
use professional_bot.Db.Transactions.{upsert_blockchain, upsert_provider}
use professional_bot.Domain.Enums.NetworkCode.{network_code_eq, exchange_internal}
use professional_bot.Domain.Enums.ProviderCode.{provider_code_eq, binance, binance_pay, bybit, okx}
use professional_bot.Domain.Enums.PaymentStatus.{PaymentStatus, payment_status_eq}
use professional_bot.Domain.Enums.VerificationOutcome.{VerificationOutcome, verification_outcome_eq}
use professional_bot.Domain.Payments.Fingerprint.{transaction_fingerprint}
use professional_bot.Domain.Payments.Types.{PaymentExpectation, ObservedTransaction}
use professional_bot.Domain.Payments.Verification.{
  VerificationDecision, Tolerances, duplicate_check, verify_transaction, select_best_candidate,
}
use professional_bot.Domain.Payments.Service.{
  PaymentIntent, Session, expectation, transition_intent,
}
use professional_bot.Domain.Payments.Service.Outcomes.{Settings, VerificationResult}
use professional_bot.Domain.Payments.Service.Record.{record_outcome}

-- What looking up the method and asking its adapter end with.
pub data Reply : Type 0 where
  method_missing misconfigured provider_down : Reply
  found : List ObservedTransaction → Reply

abbrev pub decided : VerificationOutcome → VerificationDecision
decided o = record {
  outcome = o;
  checks = [];
  observed_amount = none;
  observed_confirmations = none;
  missing_confirmations = pos 0;
}

unfoldable pub is_exchange : ObservedTransaction → Bool
is_exchange tx =
    tx.network == exchange_internal
    || contains (binance ∷ binance_pay ∷ bybit ∷ okx ∷ []) tx.provider

-- `providers.record_health`
abbrev pub health : Bool → Session → Session
health b s = record s { provider_healthy = some b }

-- `_persist_transaction`
unfoldable pub persist : Option ObservedTransaction → Session → Session
unfolding is_exchange
persist none s = s
persist (some tx) s =
    if is_exchange tx
    then record s {
      provider_rows =
          upsert_provider
            (record {
              provider_code = tx.provider;
              external_id = tx.external_id;
              status = tx.status_label;
              confirmations = tx.confirmations;
            })
            s.provider_rows;
    }
    else record s {
      chain_rows =
          upsert_blockchain
            (record {
              network = tx.network;
              txid = text_or (or_empty tx.txid) tx.external_id;
              log_index = tx.log_index;
              amount_units = tx.amount_units;
              confirmations = tx.confirmations;
              is_successful = tx.is_successful;
              block_number = tx.block_number;
              block_time = tx.block_time;
            })
            s.chain_rows;
    }

-- A submitted reference that finds one transaction is judged on it, a list is ranked.
unfoldable pub judge :
    PaymentExpectation
    → Tolerances
    → Option Text
    → List ObservedTransaction
    → Option ObservedTransaction × VerificationDecision
judge exp t reference (tx ∷ []) =
    if is_empty (or_empty reference)
    then select_best_candidate exp t (tx ∷ [])
    else (some tx, verify_transaction exp tx t)
judge exp t reference txs = select_best_candidate exp t txs

-- The claim was granted, or the row that is there is this payment's own.
unfoldable pub holds : ℕ → Option Consumption × Bool → Bool
holds intent_id (row, true) = true
holds intent_id (none, false) = false
holds intent_id (some row, false) = row.payment_intent_id == intent_id

unfoldable pub as_duplicate : VerificationDecision → VerificationDecision
as_duplicate d = record {
  outcome = VerificationOutcome.duplicate;
  checks = d.checks ++ (duplicate_check, false) ∷ [];
  observed_amount = d.observed_amount;
  observed_confirmations = d.observed_confirmations;
  missing_confirmations = pos 0;
}

module _ (sha256 : Text → Text) where
  abbrev pub fingerprint_of : ObservedTransaction → Text
  fingerprint_of tx =
      transaction_fingerprint sha256 tx.provider tx.network tx.external_id tx.log_index

  abbrev pub consumption : ℕ → PaymentIntent → ObservedTransaction → Consumption
  consumption now intent tx = record {
    fingerprint = fingerprint_of tx;
    payment_intent_id = intent.id;
    order_id = intent.order_id;
    external_id = tx.external_id;
    amount_units = tx.amount_units;
    consumed_at = now;
  }

  -- `_claim`
  unfoldable pub claim_for : ℕ → ObservedTransaction → Session → Bool × Session
  unfolding holds
  claim_for now tx s =
      let (answer, table) = claim (consumption now s.intent tx) s.consumptions in
      (holds s.intent.id answer, record s { consumptions = table })

  -- A verified decision has to survive the duplicate check.
  unfoldable pub survive :
      ℕ
      → Option ObservedTransaction
      → VerificationDecision
      → Session
      → VerificationDecision × Session
  unfolding claim_for as_duplicate
  survive now none d s = (d, s)
  survive now (some tx) d s =
      if d.outcome == VerificationOutcome.verified
      then (let (claimed, after) = claim_for now tx s in
          (if claimed then d else as_duplicate d, after))
      else (d, s)

  module _ (iter : PaymentStatus → List PaymentStatus) (detail : VerificationDecision → Text) where
    unfoldable pub settle_found :
        Settings
        → Tolerances
        → ℕ
        → Option Text
        → List ObservedTransaction
        → Session
        → Result (VerificationResult × Session)
    unfolding judge persist survive record_outcome expectation
    settle_found settings t now reference txs s =
        let (tx, decision) = judge (expectation s.intent) t reference txs in
        let (decision', after) = survive now tx decision (persist tx s) in
        record_outcome iter detail settings now decision' tx after

    unfoldable pub on_reply :
        Settings
        → Tolerances
        → ℕ
        → Option Text
        → Reply
        → Session
        → Result (VerificationResult × Session)
    unfolding settle_found
    on_reply settings t now reference method_missing s = err not_found
    on_reply settings t now reference misconfigured s =
        record_outcome iter detail settings now (decided VerificationOutcome.unsupported) none s
    on_reply settings t now reference provider_down s =
        record_outcome iter detail settings now (decided VerificationOutcome.provider_error) none
          (health false s)
    on_reply settings t now reference (found txs) s =
        settle_found settings t now reference txs (health true s)

    abbrev pub latest_reference : Session → Option Text
    latest_reference s = elim s.attempt [ none ↦ none | some a ↦ a.submitted_txid ]

    -- A payment that waits starts being looked for.
    unfoldable pub start_detecting : Session → Result Session
    unfolding transition_intent
    start_detecting s =
        if s.intent.status == PaymentStatus.submitted
          || s.intent.status == PaymentStatus.awaiting_payment
        then transition_intent PaymentStatus.detecting s
        else ok s

    unfoldable pub verify :
        Settings → Tolerances → ℕ → Reply → Session → Result (VerificationResult × Session)
    unfolding start_detecting on_reply
    verify settings t now reply s =
        if s.intent.status == PaymentStatus.verified
        then ok (
          record {
            outcome = VerificationOutcome.verified;
            newly_verified = false;
            needs_review = false;
            retry_in_seconds = none;
          },
          s,
        )
        else do
          started ← start_detecting s
          on_reply settings t now (latest_reference s) reply started
