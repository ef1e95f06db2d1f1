-- ===== src/Domain/Payments/Verification/Selection.antt =====
-- What `select_best_candidate` of app/domain/payments/verification.py picks.
use professional_bot.Prelude.{
  ◌≤◌, ◌<◌, ◌≡◌, ◌≢◌, ◌⊎◌, inl, inr, refl, true, false, List, [], ◌∷◌, Option, none, some, arith,
  In, nat_eq, subst,
}
use professional_bot.Domain.Enums.VerificationOutcome
use professional_bot.Domain.Enums.VerificationOutcome.{
  VerificationOutcome, verified, pending_confirmation, not_found, wrong_network, wrong_receiver,
  failed_transaction, provider_error,
}
use professional_bot.Prelude.Int.{◌≤ℤ◌}
use professional_bot.Domain.Enums.NetworkCode.{network_code_eq}
use professional_bot.Domain.Payments.Types.{PaymentExpectation, ObservedTransaction}
use professional_bot.Domain.Payments.Verification.{
  VerificationDecision, Tolerances, Candidate, candidate, precedes, rank, select_best_candidate,
  verify_transaction, verify_network, receiver_ok,
}
use professional_bot.Domain.Payments.Verification.Ranking.{
  Leads, Ranked, select_best_candidate-Ranked,
}

-- The outcomes of a transaction that is not this payment's.
abbrev pub IsIgnored : VerificationOutcome → Type 0
IsIgnored o =
    (o ≡ wrong_receiver) ⊎ ((o ≡ failed_transaction) ⊎ ((o ≡ not_found) ⊎ (o ≡ provider_error)))

-- All others but VERIFIED and PENDING_CONFIRMATION are for review.
abbrev pub IsReviewed : VerificationOutcome → Type 0
IsReviewed o = (o ≢ verified) × (o ≢ pending_confirmation) × ¬ IsIgnored o

abbrev pub IsSameKind : VerificationOutcome → VerificationOutcome → Type 0
IsSameKind a b =
    ((a ≡ verified) × (b ≡ verified))
    ⊎ (((a ≡ pending_confirmation) × (b ≡ pending_confirmation)) ⊎ (IsReviewed a × IsReviewed b))

rank-verified : (o : VerificationOutcome) → rank o ≤ rank verified → o ≡ verified
unfolding rank VerificationOutcome.needs_review
rank-verified o h = ground arith

rank-pending :
    (o : VerificationOutcome)
    → rank o ≤ rank pending_confirmation
    → (o ≡ verified) ⊎ (o ≡ pending_confirmation)
unfolding rank VerificationOutcome.needs_review
rank-pending o h = ground arith

rank-IsIgnored : (o : VerificationOutcome) → rank o ≡ 3 → IsIgnored o
unfolding rank VerificationOutcome.needs_review
rank-IsIgnored o h = ground arith

rank-attributable : (o : VerificationOutcome) → rank o < 3 → ¬ IsIgnored o
unfolding rank VerificationOutcome.needs_review
rank-attributable o h ignored = ground arith

rank-IsReviewed : (o : VerificationOutcome) → IsReviewed o → rank o ≡ 2
unfolding rank VerificationOutcome.needs_review
rank-IsReviewed o h = ground arith

rank-IsSameKind : (a b : VerificationOutcome) → IsSameKind a b → rank a ≡ rank b
rank-IsSameKind a b (inl (e, f)) = rw (e, f) refl
rank-IsSameKind a b (inr (inl (e, f))) = rw (e, f) refl
rank-IsSameKind a b (inr (inr (e, f))) = rw (rank-IsReviewed a e, rank-IsReviewed b f) refl

module _ (exp : PaymentExpectation) (t : Tolerances) where
  -- The preference of the outcomes, and of the amounts within one kind.
  abbrev pub Preferred : ObservedTransaction → ObservedTransaction → Type 0
  Preferred tx other =
      let a = (verify_transaction exp tx t).outcome in
      let b = (verify_transaction exp other t).outcome in
      (b ≡ verified → a ≡ verified)
      × (b ≡ pending_confirmation → (a ≡ verified) ⊎ (a ≡ pending_confirmation))
      × (IsSameKind a b → other.amount_units ≤ℤ tx.amount_units)

  abbrev pub Selected :
      List ObservedTransaction → Option ObservedTransaction × VerificationDecision → Type 0
  Selected txs (some tx, d) =
      In tx txs
      × (d ≡ verify_transaction exp tx t)
      × ¬ IsIgnored d.outcome
      × ((other : ObservedTransaction) → In other txs → Preferred tx other)
  Selected txs (none, d) =
      (d.outcome ≡ not_found)
      × ((other : ObservedTransaction)
          → In other txs
          → IsIgnored (verify_transaction exp other t).outcome)

  leads_place : (a b : Candidate) → precedes exp t b a ≡ false → a.place ≤ b.place
  leads_place a b h = ground arith

  leads_amount :
      (a b : Candidate)
      → precedes exp t b a ≡ false
      → a.place ≡ b.place
      → b.transaction.amount_units ≤ℤ a.transaction.amount_units
  leads_amount a b h e = ground arith

  Leads-Preferred :
      (tx other : ObservedTransaction) → Leads exp t (candidate exp t tx) other → Preferred tx other
  Leads-Preferred tx other h =
      let a = (verify_transaction exp tx t).outcome in
      let b = (verify_transaction exp other t).outcome in
      let placed = leads_place (candidate exp t tx) (candidate exp t other) h in
      (
        λ e. rank-verified a (subst (λ o. rank a ≤ rank o) e placed),
        λ e. rank-pending a (subst (λ o. rank a ≤ rank o) e placed),
        λ e. leads_amount (candidate exp t tx) (candidate exp t other) h (rank-IsSameKind a b e),
      )

  Ranked-Selected :
      (txs : List ObservedTransaction) (r : Option ObservedTransaction × VerificationDecision)
      → Ranked exp t txs r
      → Selected txs r
  Ranked-Selected txs (some tx, d) (m, same, early, leads) = (
    m,
    same,
    λ h. rank-attributable d.outcome early h,
    λ other o. Leads-Preferred tx other (leads other o),
  )
  Ranked-Selected txs (none, d) (missing, last) =
      (missing, λ other o. rank-IsIgnored (verify_transaction exp other t).outcome (last other o))

  -- `select_best_candidate` returns one of the transactions with the engine's decision on it, which is
  -- none of WRONG_RECEIVER, FAILED_TRANSACTION, NOT_FOUND and PROVIDER_ERROR: a VERIFIED one where
  -- there is one, otherwise one that is PENDING_CONFIRMATION where there is one, and no other
  -- transaction of its kind (VERIFIED, PENDING_CONFIRMATION, or for review) has a larger amount. Or it
  -- returns none with NOT_FOUND, and then the decision on every transaction is one of those four.
  pub select_best_candidate-selects :
      (txs : List ObservedTransaction) → Selected txs (select_best_candidate exp t txs)
  select_best_candidate-selects txs =
      Ranked-Selected txs (select_best_candidate exp t txs) (select_best_candidate-Ranked exp t txs)

  -- A successful transaction on another network is picked when it is the only one, with
  -- WRONG_NETWORK, whichever address it went to.
  pub select_best_candidate-foreign :
      (tx : ObservedTransaction)
      → tx.is_successful ≡ true
      → tx.network ≢ exp.network
      → receiver_ok exp tx ≡ false
      → ((select_best_candidate exp t (tx ∷ [])).0 ≡ some tx)
        × ((select_best_candidate exp t (tx ∷ [])).1.outcome ≡ wrong_network)
  unfolding select_best_candidate verify_transaction verify_network rank
  select_best_candidate-foreign tx ok other elsewhere =
      ground (arith, network_code_eq.beq_iff tx.network exp.network)
