-- ===== src/Domain/Payments/Verification.antt =====
-- app/domain/payments/verification.py: may a transaction be credited to a payment?
-- The evidence of a decision is kept as the checks that were made, in order, with their verdicts;
-- the texts beside them are left out. `sent_at is not None` always holds: `timestamp` is
-- `block_time or observed_at`, and a transaction has an `observed_at`.
pub mod Engine
pub mod Credit
pub mod Ranking
pub mod Selection
use professional_bot.Prelude.{
  ℕ, ◌+◌, nat_eq, Bool, true, false, not, ◌&&◌, List, [], ◌∷◌, ◌++◌, Option, none, some, leb, ◌==◌,
  if◌then◌else◌,
}
use professional_bot.Prelude.Int.{ℤ, pos, ◌-ℤ◌, neg, ltb_ℤ, leb_ℤ, eqb_ℤ}
use professional_bot.Prelude.Text.{Text, text_eq, is_empty, or_empty, text_or, upper, strip}
use professional_bot.Core.Money.{Decimal, AmountMatch, exact, underpaid, overpaid, compare_amounts}
use professional_bot.Domain.Enums.NetworkCode.{NetworkCode, network_code_eq}
use professional_bot.Domain.Enums.VerificationOutcome
use professional_bot.Domain.Enums.VerificationOutcome.{VerificationOutcome}
use professional_bot.Domain.Payments.Fingerprint.{normalize_address}
use professional_bot.Domain.Payments.Types.{
  PaymentExpectation, ObservedTransaction, amount, timestamp,
}

-- The keys of the `checks` dictionary.
pub data Check : Type 0 where
  transaction_successful network asset token_contract receiver memo : Check
  amount_check payment_window confirmations duplicate_check : Check

pub record VerificationDecision : Type 0 where
  pub outcome : VerificationOutcome
  pub checks : List (Check × Bool)
  pub observed_amount : Option Decimal
  pub observed_confirmations : Option ℤ
  pub missing_confirmations : ℤ

-- The operator's settings, as the engine's keyword arguments give them.
pub record Tolerances : Type 0 where
  pub underpayment : Decimal
  pub overpayment : Decimal
  pub late_payment_grace : ℕ

abbrev pub ten_minutes : ℕ
ten_minutes = 600000000

module _ (exp : PaymentExpectation) (tx : ObservedTransaction) where
  unfoldable pub contract_ok : Bool
  contract_ok =
      let observed = normalize_address tx.token_contract tx.network in
      not (is_empty observed) && observed == normalize_address exp.token_contract exp.network

  unfoldable pub receiver_ok : Bool
  receiver_ok =
      text_or tx.to_address_normalized (normalize_address (some tx.to_address) tx.network)
      == exp.destination_normalized

  unfoldable pub memo_ok : Bool
  memo_ok =
      upper (strip (text_or (or_empty tx.memo) (or_empty tx.reference)))
      == upper (strip (or_empty exp.memo))

  unfoldable pub match_amount : Tolerances → AmountMatch
  match_amount t =
      if tx.decimals == exp.asset_decimals
        && eqb_ℤ (tx.amount_units -ℤ exp.expected_amount_units) (pos 0)
      then exact
      else compare_amounts exp.expected_amount (amount tx) t.underpayment t.overpayment

  unfoldable pub window_ok : Tolerances → Bool
  window_ok t =
      leb exp.created_at (timestamp tx + ten_minutes)
      && leb (timestamp tx) (exp.expires_at + t.late_payment_grace)

  -- `max(expectation.required_confirmations, 0)`
  abbrev pub required : ℤ
  required = if ltb_ℤ exp.required_confirmations (pos 0) then pos 0 else exp.required_confirmations

  -- A decision without amounts, one with the amount, and one with both.
  abbrev bare : VerificationOutcome → List (Check × Bool) → VerificationDecision
  bare o cs = record {
    outcome = o;
    checks = cs;
    observed_amount = none;
    observed_confirmations = none;
    missing_confirmations = pos 0;
  }

  abbrev observed : VerificationOutcome → List (Check × Bool) → VerificationDecision
  observed o cs = record (bare o cs) {
    observed_amount = some (amount tx);
    observed_confirmations = some tx.confirmations;
  }

  -- Checks 9, 8 and 7, on the checks that were made before.
  unfoldable pub verify_confirmations : List (Check × Bool) → VerificationDecision
  verify_confirmations cs =
      if leb_ℤ required tx.confirmations
      then observed VerificationOutcome.verified (cs ++ (confirmations, true) ∷ [])
      else record (observed VerificationOutcome.pending_confirmation
          (cs ++ (confirmations, false) ∷ [])) {
            missing_confirmations = required -ℤ tx.confirmations;
          }

  unfoldable pub verify_window : Tolerances → List (Check × Bool) → VerificationDecision
  verify_window t cs =
      if window_ok t
      then verify_confirmations (cs ++ (payment_window, true) ∷ [])
      else observed VerificationOutcome.outside_window (cs ++ (payment_window, false) ∷ [])

  unfoldable pub verify_amount : Tolerances → List (Check × Bool) → VerificationDecision
  verify_amount t cs = elim (match_amount t) [
    | exact ↦ verify_window t (cs ++ (amount_check, true) ∷ [])
    | underpaid ↦ observed VerificationOutcome.underpaid (cs ++ (amount_check, false) ∷ [])
    | overpaid ↦ observed VerificationOutcome.overpaid (cs ++ (amount_check, false) ∷ [])
  ]

  -- Checks 6, 5 and 4.
  unfoldable pub verify_memo : Tolerances → List (Check × Bool) → VerificationDecision
  verify_memo t cs =
      if is_empty (or_empty exp.memo)
      then verify_amount t cs
      else if memo_ok
      then verify_amount t (cs ++ (memo, true) ∷ [])
      else record (bare VerificationOutcome.memo_mismatch (cs ++ (memo, false) ∷ [])) {
        observed_amount = some (amount tx);
      }

  unfoldable pub verify_receiver : Tolerances → List (Check × Bool) → VerificationDecision
  verify_receiver t cs =
      if receiver_ok
      then verify_memo t (cs ++ (receiver, true) ∷ [])
      else bare VerificationOutcome.wrong_receiver (cs ++ (receiver, false) ∷ [])

  unfoldable pub verify_contract : Tolerances → List (Check × Bool) → VerificationDecision
  verify_contract t cs =
      if is_empty (or_empty exp.token_contract)
      then verify_receiver t (cs ++ (token_contract, true) ∷ [])
      else if contract_ok
      then verify_receiver t (cs ++ (token_contract, true) ∷ [])
      else bare VerificationOutcome.wrong_asset (cs ++ (token_contract, false) ∷ [])

  -- Checks 3, 2 and 1.
  unfoldable pub verify_asset : Tolerances → List (Check × Bool) → VerificationDecision
  verify_asset t cs =
      if upper tx.asset == upper exp.asset
      then verify_contract t (cs ++ (asset, true) ∷ [])
      else bare VerificationOutcome.wrong_asset (cs ++ (asset, false) ∷ [])

  unfoldable pub verify_network : Tolerances → List (Check × Bool) → VerificationDecision
  verify_network t cs =
      if tx.network == exp.network
      then verify_asset t (cs ++ (network, true) ∷ [])
      else bare VerificationOutcome.wrong_network (cs ++ (network, false) ∷ [])

  unfoldable pub verify_transaction : Tolerances → VerificationDecision
  verify_transaction t =
      if tx.is_successful
      then verify_network t ((transaction_successful, true) ∷ [])
      else bare VerificationOutcome.failed_transaction ((transaction_successful, false) ∷ [])

-- The rank of a decision: verified, on its way, for review, or not this payment.
unfoldable pub rank : VerificationOutcome → ℕ
unfolding VerificationOutcome.needs_review
rank VerificationOutcome.verified = 0
rank VerificationOutcome.pending_confirmation = 1
rank VerificationOutcome.wrong_receiver = 3
rank o = if VerificationOutcome.needs_review o then 2 else 3

pub record Candidate : Type 0 where
  pub place : ℕ
  pub transaction : ObservedTransaction
  pub decision : VerificationDecision

module _ (exp : PaymentExpectation) (t : Tolerances) where
  abbrev pub candidate : ObservedTransaction → Candidate
  candidate tx =
      let d = verify_transaction exp tx t in
      record { place = rank d.outcome; transaction = tx; decision = d }

  -- `(rank, -amount_units)` of `b` is below that of `a`.
  abbrev pub precedes : Candidate → Candidate → Bool
  precedes b a =
      if b.place == a.place
      then ltb_ℤ a.transaction.amount_units b.transaction.amount_units
      else leb b.place a.place

  -- The first candidate after a stable sort: an earlier one yields only to one below it.
  unfoldable pub lower_of : Candidate → Candidate → Candidate
  lower_of best c = if precedes c best then c else best

  unfoldable pub first_ranked : Candidate → List ObservedTransaction → Candidate
  first_ranked best [] = best
  first_ranked best (tx ∷ txs) = first_ranked (lower_of best (candidate tx)) txs

  abbrev not_found : List (Check × Bool) → VerificationDecision
  not_found cs = record {
    outcome = VerificationOutcome.not_found;
    checks = cs;
    observed_amount = none;
    observed_confirmations = none;
    missing_confirmations = pos 0;
  }

  -- The answer on the best candidate.
  unfoldable pub settle : Candidate → Option ObservedTransaction × VerificationDecision
  settle best =
      if best.place == 3
      then (none, not_found best.decision.checks)
      else (some best.transaction, best.decision)

  unfoldable pub select_best_candidate :
      List ObservedTransaction → Option ObservedTransaction × VerificationDecision
  unfolding first_ranked lower_of settle
  select_best_candidate [] = (none, not_found [])
  select_best_candidate (tx ∷ txs) = settle (first_ranked (candidate tx) txs)
