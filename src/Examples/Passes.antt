-- ===== src/Examples/Passes.antt =====
-- A pass that credits the transfer of Examples/Payments, written out, and an approval.
use professional_bot.Prelude.{
  ℕ, ◌≡◌, refl, true, false, [], ◌∷◌, ◌++◌, Option, none, some, arith, ok,
}
use professional_bot.Prelude.Text.{codes, text_eqb_iff}
use professional_bot.Db.Consumptions.{get_by_fingerprint, claim, insert_unless, for_order}
use professional_bot.Db.Ledger.{record_entry, has_key}
use professional_bot.Db.Transactions.{upsert_blockchain}
use professional_bot.Domain.Enums.OrderStatus
use professional_bot.Domain.Enums.PaymentStatus.{PaymentStatus}
use professional_bot.Domain.Enums.VerificationOutcome.{verified}
use professional_bot.Domain.Orders.Lifecycle.{Order, stamp, transition}
use professional_bot.Domain.StateMachines.{
  assert_order_transition, assert_payment_transition, payment_path,
}
use professional_bot.Domain.StateMachines.Search.{search, scan}
use professional_bot.Domain.Payments.Fingerprint.{transaction_fingerprint}
use professional_bot.Domain.Payments.Fingerprint.Identity.{transaction_identity_iff}
use professional_bot.Domain.Payments.Types.{ObservedTransaction, amount}
use professional_bot.Domain.Payments.Verification.{verify_transaction}
use professional_bot.Domain.Payments.Service.{
  PaymentIntent, Session, expectation, advance, walk, transition_intent,
}
use professional_bot.Domain.Payments.Service.Outcomes.{
  VerificationResult, payment_entry, verify_order, note_outcome,
}
use professional_bot.Domain.Payments.Service.Record.{
  record_outcome, act, on_verified, mark_verified,
}
use professional_bot.Domain.Payments.Service.Verify.{
  found, fingerprint_of, consumption, verify, on_reply, settle_found, judge, persist, survive,
  claim_for, holds, start_detecting, is_exchange,
}
use professional_bot.Domain.Payments.Service.Manual.{approve_manually, approval_entry, conflicting}
use professional_bot.Domain.Payments.Service.Claims.{Keeps}
use professional_bot.Domain.Payments.Service.Crediting.{
  Credited, verify-Keeps, verify-Credited, verify-Credited_once,
}
use professional_bot.Domain.Payments.Service.Approval.{Approved, approve_manually-Approved}
use professional_bot.Examples.Payments.{transfer, lenient, in_order, in_order-IsIteration}
use professional_bot.Examples.Service.{
  plain, wordless, settings, intent, order, waiting, in_status, second, second_transfer,
  is_accepted, second_is_accepted,
}

-- A payment that the transfer is credited to.
abbrev paid : PaymentIntent → PaymentIntent
paid i = record i {
  status = PaymentStatus.verified;
  verified_at = some 2000000000;
  received_amount = some (amount transfer);
  received_amount_units = some transfer.amount_units;
  confirmations = transfer.confirmations;
  verification_attempts = 1;
  last_outcome = some verified;
}

-- The state of `s` after the transfer `tx` is credited to its payment.
abbrev credited : ObservedTransaction → Option Order → Session → Session
credited tx order_after s = record s {
  intent = paid s.intent;
  order = order_after;
  attempt = some (record {
    submitted_txid = some (codes "0xFE01");
    submitted_at = 1500000000;
    verification_count = 1;
    last_outcome = some verified;
  });
  consumptions = s.consumptions ++ consumption plain 2000000000 s.intent tx ∷ [];
  ledger = payment_entry (paid s.intent) ∷ [];
  evidence =
      (record {
        payment_intent_id = s.intent.id;
        outcome = verified;
        checks = (verify_transaction (expectation s.intent) tx lenient).checks;
      })
      ∷ [];
  chain_rows =
      (record {
        network = tx.network;
        txid = codes "0xFE01";
        log_index = tx.log_index;
        amount_units = tx.amount_units;
        confirmations = tx.confirmations;
        is_successful = true;
        block_number = some 77;
        block_time = some 1900000000;
      })
      ∷ [];
  provider_healthy = some true;
}

abbrev first_credited : Session
first_credited =
    credited transfer
      (some (record order { status = OrderStatus.payment_verified; paid_at = some 2000000000 }))
      waiting

-- The other payment's pass starts when the first one's claim stands in the table.
abbrev later : Session
later = record second { consumptions = first_credited.consumptions }

abbrev credit : VerificationResult
credit = record {
  outcome = verified;
  newly_verified = true;
  needs_review = false;
  retry_in_seconds = none;
}

passes :
    verify plain in_order wordless settings lenient 2000000000 (found (transfer ∷ [])) waiting
    ≡ ok (credit, first_credited)
unfolding verify start_detecting transition_intent assert_payment_transition on_reply settle_found
    judge persist is_exchange upsert_blockchain survive claim_for claim insert_unless
    get_by_fingerprint holds record_outcome act on_verified mark_verified note_outcome advance
    payment_path search scan in_order walk verify_order transition assert_order_transition stamp
    record_entry has_key expectation
passes = rw is_accepted refl

other_is_free : get_by_fingerprint (fingerprint_of plain second_transfer) later.consumptions ≡ none
unfolding get_by_fingerprint transaction_fingerprint
other_is_free = ground (
  arith,
  text_eqb_iff (fingerprint_of plain transfer) (fingerprint_of plain second_transfer),
  transaction_identity_iff transfer.provider transfer.provider transfer.network transfer.network
      transfer.external_id transfer.external_id 0 1,
)

passes_again :
    verify plain in_order wordless settings lenient 2000000000 (found (second_transfer ∷ [])) later
    ≡ ok (credit, credited second_transfer none later)
unfolding verify start_detecting transition_intent assert_payment_transition on_reply settle_found
    judge persist is_exchange upsert_blockchain survive claim_for claim insert_unless holds
    record_outcome act on_verified mark_verified note_outcome advance payment_path search scan
    in_order walk verify_order transition assert_order_transition stamp record_entry has_key
    expectation
passes_again = rw (second_is_accepted, other_is_free) refl

verify-Credited_example : Credited plain lenient (found (transfer ∷ [])) waiting first_credited
verify-Credited_example =
    verify-Credited plain in_order in_order-IsIteration wordless settings lenient 2000000000
      (found (transfer ∷ [])) waiting credit first_credited passes refl

verify-Keeps_example : Keeps later (credited second_transfer none later)
verify-Keeps_example =
    verify-Keeps plain in_order in_order-IsIteration wordless settings lenient 2000000000
      (found (second_transfer ∷ [])) later credit (credited second_transfer none later) passes_again

verify-Credited_once_example :
    (a : Credited plain lenient (found (transfer ∷ [])) waiting first_credited) × (b : Credited
      plain lenient
      (found (second_transfer ∷ []))
      later
      (credited second_transfer none later))
    × (fingerprint_of plain a.transaction ≡ fingerprint_of plain b.transaction → ◌≡◌ {A = ℕ} 3 4)
verify-Credited_once_example =
    verify-Credited_once plain in_order in_order-IsIteration wordless settings lenient 2000000000
      2000000000 (found (transfer ∷ [])) (found (second_transfer ∷ [])) waiting first_credited later
      (credited second_transfer none later) credit credit passes refl (λ f c e. e) passes_again refl

abbrev reviewed : Session
reviewed = record (in_status PaymentStatus.under_review) { order = none }

abbrev approved_intent : PaymentIntent
approved_intent = record intent { status = PaymentStatus.verified; verified_at = some 9 }

abbrev approved : Session
approved = record reviewed {
  intent = approved_intent;
  ledger = payment_entry approved_intent ∷ approval_entry approved_intent ∷ [];
}

approves : approve_manually in_order wordless 9 reviewed ≡ ok (true, approved)
unfolding approve_manually conflicting for_order mark_verified advance payment_path search scan
    in_order walk transition_intent assert_payment_transition verify_order record_entry has_key
approves = refl

approve_manually-Approved_example : Approved reviewed approved
approve_manually-Approved_example =
    approve_manually-Approved in_order in_order-IsIteration wordless 9 reviewed true approved
      (λ h. cc) approves
