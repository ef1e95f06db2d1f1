-- ===== src/Domain/Payments/Verification/Engine.antt =====
-- `verify_transaction` of app/domain/payments/verification.py, test by test.
use professional_bot.Prelude.{◌≡◌, ◌⊎◌, ◌↔◌, Bool, true, List, [], ◌∷◌, ◌++◌, arith, ◌==◌, nat_eq}
use professional_bot.Prelude.Int.{leb_ℤ}
use professional_bot.Prelude.Text.{text_eq, is_empty, or_empty, upper}
use professional_bot.Core.Money.{exact}
use professional_bot.Domain.Enums.NetworkCode.{network_code_eq}
use professional_bot.Domain.Enums.VerificationOutcome.{verified}
use professional_bot.Domain.Payments.Types.{PaymentExpectation, ObservedTransaction}
use professional_bot.Domain.Payments.Verification.{
  Tolerances, contract_ok, receiver_ok, memo_ok, match_amount, window_ok, required,
  verify_transaction, verify_network, verify_asset, verify_contract, verify_receiver, verify_memo,
  verify_amount, verify_window, verify_confirmations, Check, transaction_successful, network, asset,
  token_contract, receiver, memo, amount_check, payment_window,
}

module _ (exp : PaymentExpectation) (tx : ObservedTransaction) (t : Tolerances) where
  -- The tests of the engine from each check on, the last one first.
  abbrev pub ConfirmationsPasses : Type 0
  ConfirmationsPasses = leb_ℤ (required exp tx) tx.confirmations ≡ true

  abbrev pub WindowPasses : Type 0
  WindowPasses = (window_ok exp tx t ≡ true) × ConfirmationsPasses

  abbrev pub AmountPasses : Type 0
  AmountPasses = (match_amount exp tx t ≡ exact) × WindowPasses

  abbrev pub MemoPasses : Type 0
  MemoPasses = ((is_empty (or_empty exp.memo) ≡ true) ⊎ (memo_ok exp tx ≡ true)) × AmountPasses

  abbrev pub ReceiverPasses : Type 0
  ReceiverPasses = (receiver_ok exp tx ≡ true) × MemoPasses

  abbrev pub ContractPasses : Type 0
  ContractPasses =
      ((is_empty (or_empty exp.token_contract) ≡ true) ⊎ (contract_ok exp tx ≡ true))
      × ReceiverPasses

  abbrev pub AssetPasses : Type 0
  AssetPasses = ((upper tx.asset == upper exp.asset) ≡ true) × ContractPasses

  abbrev pub NetworkPasses : Type 0
  NetworkPasses = ((tx.network == exp.network) ≡ true) × AssetPasses

  confirmations_iff :
      (cs : List (Check × Bool))
      → ((verify_confirmations exp tx cs).outcome ≡ verified) ↔ ConfirmationsPasses
  unfolding verify_confirmations
  confirmations_iff cs = ground (arith)

  window_iff :
      (cs : List (Check × Bool)) → ((verify_window exp tx t cs).outcome ≡ verified) ↔ WindowPasses
  unfolding verify_window
  window_iff cs = ground (arith, confirmations_iff (cs ++ (payment_window, true) ∷ []))

  amount_iff :
      (cs : List (Check × Bool)) → ((verify_amount exp tx t cs).outcome ≡ verified) ↔ AmountPasses
  unfolding verify_amount
  amount_iff cs = ground (arith, window_iff (cs ++ (amount_check, true) ∷ []))

  memo_iff :
      (cs : List (Check × Bool)) → ((verify_memo exp tx t cs).outcome ≡ verified) ↔ MemoPasses
  unfolding verify_memo
  memo_iff cs = ground (arith, amount_iff cs, amount_iff (cs ++ (memo, true) ∷ []))

  receiver_iff :
      (cs : List (Check × Bool))
      → ((verify_receiver exp tx t cs).outcome ≡ verified) ↔ ReceiverPasses
  unfolding verify_receiver
  receiver_iff cs = ground (arith, memo_iff (cs ++ (receiver, true) ∷ []))

  contract_iff :
      (cs : List (Check × Bool))
      → ((verify_contract exp tx t cs).outcome ≡ verified) ↔ ContractPasses
  unfolding verify_contract
  contract_iff cs = ground (arith, receiver_iff (cs ++ (token_contract, true) ∷ []))

  asset_iff :
      (cs : List (Check × Bool)) → ((verify_asset exp tx t cs).outcome ≡ verified) ↔ AssetPasses
  unfolding verify_asset
  asset_iff cs = ground (arith, contract_iff (cs ++ (asset, true) ∷ []))

  network_iff :
      (cs : List (Check × Bool)) → ((verify_network exp tx t cs).outcome ≡ verified) ↔ NetworkPasses
  unfolding verify_network
  network_iff cs = ground (arith, asset_iff (cs ++ (network, true) ∷ []))

  pub verified_iff :
      ((verify_transaction exp tx t).outcome ≡ verified)
      ↔ ((tx.is_successful ≡ true) × NetworkPasses)
  unfolding verify_transaction
  verified_iff = ground (arith, network_iff ((transaction_successful, true) ∷ []))
