-- ===== src/Examples/Service.antt =====
-- Passes of the payment service on the payment of Examples/Payments. The text itself stands in for its
-- digest.
use professional_bot.Prelude.{
  ◌≡◌, refl, true, false, List, [], ◌∷◌, none, some, arith, ok, err, invalid_transition, inl, inr,
  ℕ,
}
use professional_bot.Prelude.Int.{pos, ◌-ℤ◌}
use professional_bot.Prelude.Text.{Text, codes, strip, text_eqb, upper, lower, starts_with}
use professional_bot.Core.Money.{
  compare_amounts, classify, from_base_units, half_up, quantize, quantize_money, trim,
}
use professional_bot.Domain.Payments.Fingerprint.{normalize_address, is_hex_network}
use professional_bot.Db.Consumptions.{get_by_fingerprint}
use professional_bot.Domain.Enums.OrderStatus
use professional_bot.Domain.Enums.PaymentStatus.{PaymentStatus}
use professional_bot.Domain.Enums.VerificationOutcome.{verified}
use professional_bot.Domain.Orders.Lifecycle.{Order}
use professional_bot.Domain.StateMachines.{assert_order_transition}
use professional_bot.Domain.Payments.Types.{ObservedTransaction, amount, timestamp}
use professional_bot.Domain.Payments.Verification.{
  VerificationDecision, verify_transaction, verify_network, verify_asset, verify_contract,
  contract_ok, verify_receiver, receiver_ok, verify_memo, verify_amount, match_amount,
  verify_window, memo_ok, verify_confirmations, window_ok,
}
use professional_bot.Domain.Payments.Service.{PaymentIntent, Session, expectation, advance}
use professional_bot.Domain.Payments.Service.Advance.{Advanced, advance-Advanced}
use professional_bot.Domain.Payments.Service.Outcomes.{Settings, VerificationResult}
use professional_bot.Domain.Payments.Service.Verify.{found, fingerprint_of, verify}
use professional_bot.Domain.Payments.Service.Manual.{approve_manually, conflicting, expire_due}
use professional_bot.Domain.Payments.Service.Completeness.{Marked, verify-Marked}
use professional_bot.Domain.Payments.Service.Expiry.{Swept, expire_due-Swept}
use professional_bot.Domain.Payments.Service.Defects.{
  verify-seen_raises, approve_manually-expired_raises,
}
use professional_bot.Examples.Payments.{due, transfer, lenient, in_order, in_order-IsIteration}

abbrev pub plain : Text → Text
plain text = text

abbrev pub wordless : VerificationDecision → Text
wordless d = []

abbrev pub settings : Settings
settings = record { max_verification_attempts = 120; verification_poll_interval = 20 }

abbrev pub intent : PaymentIntent
intent = record {
  id = 3;
  reference = codes "TG-10006";
  order_id = 7;
  payment_method_id = 2;
  order_amount = pos 1250000000;
  order_currency = codes "USDT";
  quote_rate = pos 100000000;
  provider_code = due.provider;
  network = due.network;
  status = PaymentStatus.submitted;
  expected_amount = due.expected_amount;
  expected_amount_units = due.expected_amount_units;
  asset = due.asset;
  asset_decimals = due.asset_decimals;
  destination = due.destination;
  destination_normalized = due.destination_normalized;
  token_contract = due.token_contract;
  memo = due.memo;
  required_confirmations = due.required_confirmations;
  created_at = due.created_at;
  expires_at = due.expires_at;
  submitted_at = some 1500000000;
  detected_at = none;
  verified_at = none;
  failed_at = none;
  next_poll_at = none;
  received_amount = none;
  received_amount_units = none;
  confirmations = pos 0;
  verification_attempts = 0;
  last_outcome = none;
  failure_reason = none;
  review_reason = none;
}

abbrev pub order : Order
order = record {
  id = 7;
  reference = codes "TG-10006";
  user_id = some 1;
  reseller_id = none;
  items = [];
  status = OrderStatus.payment_pending;
  currency = codes "USDT";
  subtotal = pos 1250000000;
  discount_total = pos 0;
  total = pos 1250000000;
  coupon_id = none;
  paid_at = none;
  delivered_at = none;
  completed_at = none;
  cancelled_at = none;
  cancellation_reason = none;
  review_reason = none;
}

abbrev pub waiting : Session
waiting = record {
  intent = intent;
  order = some order;
  attempt = some (record {
    submitted_txid = some (codes "0xFE01");
    submitted_at = 1500000000;
    verification_count = 0;
    last_outcome = none;
  });
  consumptions = [];
  ledger = [];
  anomalies = [];
  evidence = [];
  chain_rows = [];
  provider_rows = [];
  provider_healthy = none;
}

-- The same payment in another state.
abbrev pub in_status : PaymentStatus → Session
in_status p = record waiting { intent = record intent { status = p } }

-- Another order's payment, for which another transfer of the same transaction was sent.
abbrev pub second : Session
second = record waiting { intent = record intent { id = 4; order_id = 8 }; order = none }

abbrev pub second_transfer : ObservedTransaction
second_transfer = record transfer { log_index = 1 }

pub order_is_ready :
    assert_order_transition OrderStatus.payment_pending OrderStatus.payment_verified ≡ ok tt
unfolding assert_order_transition
order_is_ready = refl

pub is_accepted : (verify_transaction (expectation intent) transfer lenient).outcome ≡ verified
unfolding verify_transaction verify_network expectation verify_asset text_eqb upper verify_contract
    contract_ok normalize_address verify_receiver receiver_ok verify_memo verify_amount match_amount
    ◌-ℤ◌ compare_amounts amount verify_window classify from_base_units half_up quantize
    quantize_money trim is_hex_network timestamp memo_ok verify_confirmations window_ok lower
    starts_with strip
is_accepted = refl

pub second_is_accepted :
    (verify_transaction (expectation second.intent) second_transfer lenient).outcome ≡ verified
unfolding verify_transaction verify_network expectation verify_asset text_eqb upper verify_contract
    contract_ok normalize_address verify_receiver receiver_ok verify_memo verify_amount match_amount
    ◌-ℤ◌ compare_amounts amount verify_window classify from_base_units half_up quantize
    quantize_money trim is_hex_network timestamp memo_ok verify_confirmations window_ok lower
    starts_with strip
second_is_accepted = refl

pub is_free : get_by_fingerprint (fingerprint_of plain transfer) [] ≡ none
unfolding get_by_fingerprint
is_free = refl

verify-Marked_example :
    (r : VerificationResult) × (s : Session) × (verify plain in_order wordless settings lenient
        2000000000
        (found (transfer ∷ []))
        waiting
      ≡ ok (r, s))
    × (r.newly_verified ≡ true)
    × Marked in_order in_order-IsIteration wordless 3 s
verify-Marked_example =
    verify-Marked plain in_order in_order-IsIteration wordless settings lenient 2000000000 transfer
      waiting refl is_accepted is_free (inr (inl refl)) order_is_ready

advance-Advanced_example :
    Advanced PaymentStatus.verified waiting (advance in_order PaymentStatus.verified waiting)
advance-Advanced_example =
    advance-Advanced in_order in_order-IsIteration PaymentStatus.verified waiting

expire_due-Swept_example :
    (n : ℕ) × (us : List Session) × (expire_due in_order wordless 4600000001 10
        (waiting ∷ second ∷ [])
      ≡ ok (n, us))
    × Swept 4600000001 10 n (waiting ∷ second ∷ []) us
expire_due-Swept_example =
    expire_due-Swept in_order in_order-IsIteration wordless 4600000001 10 (waiting ∷ second ∷ [])

verify-seen_raises_example :
    verify plain in_order wordless settings lenient 2000000000
      (found [])
      (in_status PaymentStatus.detected)
    ≡ err invalid_transition
verify-seen_raises_example =
    verify-seen_raises plain in_order wordless settings lenient 2000000000
      (in_status PaymentStatus.detected) (inl refl) (omega arith) (omega arith)

abbrev expired : Session
expired = record (in_status PaymentStatus.expired) {
  order = some (record order { status = OrderStatus.expired });
}

no_conflict : conflicting expired ≡ false
unfolding conflicting
no_conflict = refl

approve_manually-expired_raises_example :
    approve_manually in_order wordless 9 expired ≡ err invalid_transition
approve_manually-expired_raises_example =
    approve_manually-expired_raises in_order in_order-IsIteration wordless 9 expired
      (record order { status = OrderStatus.expired }) refl refl refl no_conflict
