-- ===== src/Domain/Payments/Verification/Credit.antt =====
-- When the engine lets a payment be credited, in terms of the expectation and the transaction.
use professional_bot.Prelude.{
  ◌+◌, ◌≤◌, ◌≡◌, ◌≢◌, ◌⊎◌, ◌↔◌, inl, inr, true, [], ◌∷◌, some, arith, eq_of_beq, beq_of_eq, nat_eq,
}
use professional_bot.Prelude.Int.{ℤ, pos, ◌-ℤ◌, -ℤ_parts, ◌+ℤ◌, ◌≤ℤ◌, eqb_ℤ, eq_of_parts}
use professional_bot.Prelude.Text.{Text, text_eq, is_empty, or_empty, text_or, upper, strip}
use professional_bot.Core.Money.{AmountMatch, exact, underpaid, overpaid, compare_amounts}
use professional_bot.Core.Money.Compare.{
  money_units, Verdict, compare_amounts-Verdict, compare_amounts_rounded,
}
use professional_bot.Domain.Enums.NetworkCode.{network_code_eq}
use professional_bot.Domain.Enums.VerificationOutcome.{verified}
use professional_bot.Domain.Payments.Fingerprint.{normalize_address}
use professional_bot.Domain.Payments.Types.{
  PaymentExpectation, ObservedTransaction, amount, timestamp,
}
use professional_bot.Domain.Payments.Verification.{
  Tolerances, ten_minutes, contract_ok, receiver_ok, memo_ok, match_amount, window_ok,
  verify_transaction,
}
use professional_bot.Domain.Payments.Verification.Engine.{verified_iff, NetworkPasses}

is_empty_iff : (s : Text) → (is_empty s ≡ true) ↔ (s ≡ [])
is_empty_iff [] = ground arith
is_empty_iff (c ∷ s) = ground arith

exact_of_Verdict :
    (e r u o : ℤ) (m : AmountMatch) → Verdict e r u o m → e ≤ℤ r +ℤ u → r ≤ℤ e +ℤ o → m ≡ exact
exact_of_Verdict e r u o exact v h g = ground arith
exact_of_Verdict e r u o underpaid v h g = absurd (omega arith)
exact_of_Verdict e r u o overpaid v h g = absurd (omega arith)

-- The exact comparison of base units comes first, then the one within the tolerances.
Verdict-iff :
    (e r u o : ℤ) (m : AmountMatch)
    → Verdict e r u o m
    → (m ≡ exact) ↔ ((e ≤ℤ r +ℤ u) × (r ≤ℤ e +ℤ o))
Verdict-iff e r u o exact v = (λ h. v, λ h. exact_of_Verdict e r u o exact v h.0 h.1)
Verdict-iff e r u o underpaid v = (λ h. cc, λ h. exact_of_Verdict e r u o underpaid v h.0 h.1)
Verdict-iff e r u o overpaid v = (λ h. cc, λ h. exact_of_Verdict e r u o overpaid v h.0 h.1)

units_equal_iff : (a b : ℤ) → (eqb_ℤ (a -ℤ b) (pos 0) ≡ true) ↔ (a ≡ b)
units_equal_iff a b =
    (λ h. eq_of_parts a b (ground (arith, -ℤ_parts a b)), λ h. rw h (ground (arith, -ℤ_parts b b)))

module _ (exp : PaymentExpectation) (tx : ObservedTransaction) (t : Tolerances) where
  -- The rules under which a transaction may be credited.
  pub record IsCreditable : Type 0 where
    pub succeeded : tx.is_successful ≡ true
    pub same_network : tx.network ≡ exp.network
    pub same_asset : upper tx.asset ≡ upper exp.asset
    pub same_contract :
        (or_empty exp.token_contract ≡ [])
        ⊎ ((normalize_address tx.token_contract tx.network ≢ [])
            × (normalize_address tx.token_contract tx.network
                ≡ normalize_address exp.token_contract exp.network))
    pub same_receiver :
        text_or tx.to_address_normalized (normalize_address (some tx.to_address) tx.network)
        ≡ exp.destination_normalized
    pub same_memo :
        (or_empty exp.memo ≡ [])
        ⊎ (upper (strip (text_or (or_empty tx.memo) (or_empty tx.reference)))
            ≡ upper (strip (or_empty exp.memo)))
    pub amount_due :
        ((tx.decimals ≡ exp.asset_decimals) × (tx.amount_units ≡ exp.expected_amount_units))
        ⊎ ((money_units exp.expected_amount
              ≤ℤ money_units (amount tx) +ℤ money_units t.underpayment)
            × (money_units (amount tx)
                ≤ℤ money_units exp.expected_amount +ℤ money_units t.overpayment))
    pub not_early : exp.created_at ≤ timestamp tx + ten_minutes
    pub not_late : timestamp tx ≤ exp.expires_at + t.late_payment_grace
    pub confirmed : exp.required_confirmations ≤ℤ tx.confirmations
    pub confirmations_nonneg : pos 0 ≤ℤ tx.confirmations

  contract_ok_iff : (contract_ok exp tx ≡ true) ↔ (
      (normalize_address tx.token_contract tx.network ≢ [])
      × (normalize_address tx.token_contract tx.network
          ≡ normalize_address exp.token_contract exp.network))
  unfolding contract_ok
  contract_ok_iff =
      let o = normalize_address tx.token_contract tx.network in
      ground (
        arith,
        is_empty_iff o,
        text_eq.beq_iff o (normalize_address exp.token_contract exp.network),
      )

  module _ (under : pos 0 ≤ℤ money_units t.underpayment)
      (over : pos 0 ≤ℤ money_units t.overpayment) where
    match_amount_iff : (match_amount exp tx t ≡ exact) ↔ (
        ((tx.decimals ≡ exp.asset_decimals) × (tx.amount_units ≡ exp.expected_amount_units))
        ⊎ ((money_units exp.expected_amount
              ≤ℤ money_units (amount tx) +ℤ money_units t.underpayment)
            × (money_units (amount tx)
                ≤ℤ money_units exp.expected_amount +ℤ money_units t.overpayment)))
    unfolding match_amount
    match_amount_iff = ground (
      arith,
      Verdict-iff (money_units exp.expected_amount) (money_units (amount tx))
          (money_units t.underpayment) (money_units t.overpayment)
          (compare_amounts exp.expected_amount (amount tx) t.underpayment t.overpayment)
          (compare_amounts-Verdict exp.expected_amount (amount tx) t.underpayment t.overpayment
            under over),
      units_equal_iff tx.amount_units exp.expected_amount_units,
    )

    tests-IsCreditable : (tx.is_successful ≡ true) × NetworkPasses exp tx t → IsCreditable
    unfolding receiver_ok memo_ok window_ok
    tests-IsCreditable h = record {
      succeeded = h.0;
      same_network = eq_of_beq tx.network exp.network h.1.0;
      same_asset = eq_of_beq (upper tx.asset) (upper exp.asset) h.1.1.0;
      same_contract = ground (arith, is_empty_iff (or_empty exp.token_contract), contract_ok_iff);
      same_receiver = eq_of_beq _ exp.destination_normalized h.1.1.1.1.0;
      same_memo = elim h.1.1.1.1.1.0 [
        | inl unset ↦ inl ((is_empty_iff (or_empty exp.memo)).0 unset)
        | inr match ↦ inr (eq_of_beq _ (upper (strip (or_empty exp.memo))) match)
      ];
      amount_due = match_amount_iff.0 h.1.1.1.1.1.1.0;
      not_early = ground arith;
      not_late = ground arith;
      confirmed = ground arith;
      confirmations_nonneg = ground arith;
    }

    IsCreditable-tests : IsCreditable → (tx.is_successful ≡ true) × NetworkPasses exp tx t
    unfolding receiver_ok memo_ok window_ok
    IsCreditable-tests c = (
      c.succeeded,
      (
        beq_of_eq tx.network exp.network c.same_network,
        (
          beq_of_eq (upper tx.asset) (upper exp.asset) c.same_asset,
          (
            ground (arith, is_empty_iff (or_empty exp.token_contract), contract_ok_iff),
            (
              beq_of_eq _ exp.destination_normalized c.same_receiver,
              (
                elim c.same_memo [
                  | inl unset ↦ inl ((is_empty_iff (or_empty exp.memo)).1 unset)
                  | inr match ↦ inr (beq_of_eq _ (upper (strip (or_empty exp.memo))) match)
                ],
                (match_amount_iff.1 c.amount_due, (ground arith, ground arith)),
              ),
            ),
          ),
        ),
      ),
    )

    -- Where neither tolerance rounds to a negative amount: `verify_transaction` answers VERIFIED
    -- exactly when the transaction succeeded, is on the expected network, in the expected asset and,
    -- if one is set, of the expected contract, went to the expected receiver with the expected memo,
    -- if one is set, brought the expected base units or an amount within the tolerances, was sent
    -- from ten minutes before the payment's creation to the end of the grace after its expiry, and
    -- has the required confirmations, of which there are never fewer than zero.
    pub verify_transaction-credits_iff :
        ((verify_transaction exp tx t).outcome ≡ verified) ↔ IsCreditable
    verify_transaction-credits_iff = (
      λ h. tests-IsCreditable ((verified_iff exp tx t).0 h),
      λ c. (verified_iff exp tx t).1 (IsCreditable-tests c),
    )

  -- Whatever the base units, an amount that is the expected one after rounding both to 8 places
  -- passes the amount check.
  pub match_amount_rounds :
      money_units (amount tx) ≡ money_units exp.expected_amount → match_amount exp tx t ≡ exact
  unfolding match_amount
  match_amount_rounds h = ground (
    arith,
    compare_amounts_rounded exp.expected_amount (amount tx) t.underpayment t.overpayment h,
  )
