-- ===== src/Examples/Payments.antt =====
-- A transfer of 12.5 USDT on Ethereum, and the statuses of its payment.
use professional_bot.Prelude.{ℕ, ◌≡◌, ◌↔◌, refl, true, false, List, [], ◌∷◌, none, some, arith, ok}
use professional_bot.Prelude.Int.{pos, ◌≤ℤ◌}
use professional_bot.Prelude.Text.{codes, text_eqb}
use professional_bot.Core.Money.{Decimal, half_up, quantize, from_base_units}
use professional_bot.Core.Money.Compare.{money_units}
use professional_bot.Domain.Enums.NetworkCode.{NetworkCode}
use professional_bot.Domain.Enums.ProviderCode.{ProviderCode}
use professional_bot.Domain.Enums.OrderStatus.{OrderStatus}
use professional_bot.Domain.Enums.PaymentStatus
use professional_bot.Domain.Enums.PaymentStatus.{PaymentStatus}
use professional_bot.Domain.Enums.VerificationOutcome.{verified}
use professional_bot.Domain.StateMachines.{
  can_transition_payment, assert_payment_transition, payment_path, order_status_for_payment,
}
use professional_bot.Domain.StateMachines.Paths.{IsIteration, PathSpec, payment_path-shortest}
use professional_bot.Domain.Payments.Fingerprint.{
  transaction_identity, normalize_address, normalize_txid,
}
use professional_bot.Domain.Payments.Fingerprint.Identity.{transaction_identity_iff}
use professional_bot.Domain.Payments.Types.{PaymentExpectation, ObservedTransaction, amount}
use professional_bot.Domain.Payments.Verification.{
  Tolerances, verify_transaction, select_best_candidate, receiver_ok,
}
use professional_bot.Domain.Payments.Verification.Credit.{
  IsCreditable, verify_transaction-credits_iff,
}
use professional_bot.Domain.Payments.Verification.Selection.{
  Selected, select_best_candidate-selects,
}

abbrev pub due : PaymentExpectation
due = record {
  provider = ProviderCode.evm;
  network = NetworkCode.erc20;
  asset = codes "USDT";
  asset_decimals = 6;
  expected_amount = record { coef = pos 125; scale = 1 };
  expected_amount_units = pos 12500000;
  destination = codes "0xAb01";
  destination_normalized = codes "0xab01";
  token_contract = some (codes "0xdAC1");
  memo = none;
  required_confirmations = pos 12;
  created_at = 1000000000;
  expires_at = 4600000000;
}

abbrev pub transfer : ObservedTransaction
transfer = record {
  provider = ProviderCode.evm;
  network = NetworkCode.erc20;
  external_id = codes "0xFE01";
  asset = codes "usdt";
  amount_units = pos 12495000;
  decimals = 6;
  to_address = codes "0xAB01";
  to_address_normalized = [];
  is_successful = true;
  observed_at = 2000000000;
  log_index = 0;
  token_contract = some (codes "0xDAC1");
  memo = none;
  reference = none;
  confirmations = pos 20;
  block_time = some 1900000000;
  block_number = some 77;
  txid = some (codes "0xFE01");
  status_label = [];
}

-- The same, on another chain and to another address.
abbrev foreign : ObservedTransaction
foreign = record transfer { network = NetworkCode.bep20; to_address = codes "0x9999" }

abbrev cent : Decimal
cent = record { coef = pos 1; scale = 2 }

abbrev pub lenient : Tolerances
lenient = record { underpayment = cent; overpayment = cent; late_payment_grace = 0 }

cent_nonneg : pos 0 ≤ℤ money_units cent
unfolding quantize half_up
cent_nonneg = omega arith

verify_transaction-credits_iff_example :
    ((verify_transaction due transfer lenient).outcome ≡ verified)
    ↔ IsCreditable due transfer lenient
verify_transaction-credits_iff_example =
    verify_transaction-credits_iff due transfer lenient cent_nonneg cent_nonneg

-- 10^-9 more than the expected amount.
abbrev dust : ObservedTransaction
dust = record transfer { decimals = 9; amount_units = pos 12500000001 }

dust_rounds : money_units (amount dust) ≡ money_units due.expected_amount
unfolding quantize half_up from_base_units amount
dust_rounds = refl

select_best_candidate-selects_example :
    Selected due lenient
      (foreign ∷ transfer ∷ [])
      (select_best_candidate due lenient (foreign ∷ transfer ∷ []))
select_best_candidate-selects_example =
    select_best_candidate-selects due lenient (foreign ∷ transfer ∷ [])

foreign_receiver : receiver_ok due foreign ≡ false
unfolding receiver_ok text_eqb normalize_address
foreign_receiver = refl

transaction_identity_iff_example :
    (transaction_identity ProviderCode.evm NetworkCode.erc20 (codes "0xFE01") 3
      ≡ transaction_identity ProviderCode.evm NetworkCode.erc20 (codes " fe01") 3)
    ↔ ((ProviderCode.evm ≡ ProviderCode.evm)
        × (NetworkCode.erc20 ≡ NetworkCode.erc20)
        × (normalize_txid (codes "0xFE01") ≡ normalize_txid (codes " fe01"))
        × (◌≡◌ {A = ℕ} 3 3))
transaction_identity_iff_example =
    transaction_identity_iff ProviderCode.evm ProviderCode.evm NetworkCode.erc20 NetworkCode.erc20
      (codes "0xFE01") (codes " fe01") 3 3

-- A frozenset's order: the table's own.
unfoldable pub in_order : PaymentStatus → List PaymentStatus
unfolding PaymentStatus.transitions
in_order s = PaymentStatus.transitions s

pub in_order-IsIteration : IsIteration in_order
unfolding in_order can_transition_payment
in_order-IsIteration s t = refl

payment_path-shortest_example :
    PathSpec PaymentStatus.created PaymentStatus.verified
      (payment_path in_order PaymentStatus.created PaymentStatus.verified)
payment_path-shortest_example =
    payment_path-shortest in_order in_order-IsIteration PaymentStatus.created PaymentStatus.verified

allowed : can_transition_payment PaymentStatus.verifying PaymentStatus.verified ≡ true
unfolding can_transition_payment
allowed = refl

following :
    (order_status_for_payment PaymentStatus.verifying ≡ some OrderStatus.payment_pending)
    × (order_status_for_payment PaymentStatus.verified ≡ some OrderStatus.payment_verified)
unfolding order_status_for_payment
following = (refl, refl)

accepted : assert_payment_transition PaymentStatus.verifying PaymentStatus.verified ≡ ok tt
unfolding assert_payment_transition
accepted = refl
