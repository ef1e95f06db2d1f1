-- ===== src/Domain/Payments/Verification/Ranking.antt =====
-- The ranking of `select_best_candidate` of app/domain/payments/verification.py: rank, then amount.
use professional_bot.Prelude.{
  ◌≤◌, ◌<◌, ◌≡◌, inl, inr, refl, false, List, [], ◌∷◌, Option, none, some, arith, In, Bool-cases,
  ◌==◌, nat_eq, subst, sym, nat_eqb_iff,
}
use professional_bot.Domain.Enums.VerificationOutcome.{VerificationOutcome, not_found}
use professional_bot.Domain.Enums.NetworkCode.{network_code_eq}
use professional_bot.Domain.Payments.Types.{PaymentExpectation, ObservedTransaction}
use professional_bot.Domain.Payments.Verification.{
  VerificationDecision, Tolerances, Candidate, candidate, precedes, rank, lower_of, first_ranked,
  settle, select_best_candidate, verify_transaction,
}

module _ (exp : PaymentExpectation) (t : Tolerances) where
  -- No worse than any candidate of `txs`.
  abbrev pub Leads : Candidate → ObservedTransaction → Type 0
  Leads best tx = precedes exp t (candidate exp t tx) best ≡ false

  precedes-lower_of :
      (best b c : Candidate)
      → precedes exp t c best ≡ false
      → precedes exp t c (lower_of exp t best b) ≡ false
  unfolding lower_of
  precedes-lower_of best b c h = ground arith

  precedes-lower_of_new : (best b : Candidate) → precedes exp t b (lower_of exp t best b) ≡ false
  unfolding lower_of
  precedes-lower_of_new best b = ground arith

  first_ranked_keeps :
      (best : Candidate) (txs : List ObservedTransaction) (c : Candidate)
      → precedes exp t c best ≡ false
      → precedes exp t c (first_ranked exp t best txs) ≡ false
  unfolding first_ranked
  first_ranked_keeps best [] c h = h
  first_ranked_keeps best (tx ∷ txs) c h =
      first_ranked_keeps (lower_of exp t best (candidate exp t tx)) txs c
        (precedes-lower_of best (candidate exp t tx) c h)

  first_ranked-Leads :
      (best : Candidate) (txs : List ObservedTransaction) (tx : ObservedTransaction)
      → In tx txs
      → Leads (first_ranked exp t best txs) tx
  unfolding first_ranked
  first_ranked-Leads best [] tx h = absurd h.1
  first_ranked-Leads best (x ∷ txs) tx (inl same) = rw same (
      first_ranked_keeps (lower_of exp t best (candidate exp t x)) txs (candidate exp t x)
        (precedes-lower_of_new best (candidate exp t x)))
  first_ranked-Leads best (x ∷ txs) tx (inr later) =
      first_ranked-Leads (lower_of exp t best (candidate exp t x)) txs tx later

  -- A candidate for one of `txs`.
  abbrev From : List ObservedTransaction → Candidate → Type 0
  From txs c = (tx : ObservedTransaction) × In tx txs × (c ≡ candidate exp t tx)

  From-lower_of :
      (txs : List ObservedTransaction) (best : Candidate) (x : ObservedTransaction)
      → From txs best
      → In x txs
      → From txs (lower_of exp t best (candidate exp t x))
  unfolding lower_of
  From-lower_of txs best x h m = elim (Bool-cases (precedes exp t (candidate exp t x) best)) [
    | inl better ↦ rw better (x, m, refl)
    | inr worse ↦ rw worse h
  ]

  first_ranked-From :
      (all : List ObservedTransaction) (best : Candidate) (txs : List ObservedTransaction)
      → From all best
      → ((x : ObservedTransaction) → In x txs → In x all)
      → From all (first_ranked exp t best txs)
  unfolding first_ranked
  first_ranked-From all best [] h sub = h
  first_ranked-From all best (x ∷ txs) h sub =
      first_ranked-From all (lower_of exp t best (candidate exp t x)) txs
        (From-lower_of all best x h (sub x (inl refl))) (λ y m. sub y (inr m))

  -- The answer for the transactions `txs`: one of them with its own decision, before which no other
  -- of them comes by rank and then amount; or none, when each of them is of the last rank.
  abbrev pub Ranked :
      List ObservedTransaction → Option ObservedTransaction × VerificationDecision → Type 0
  Ranked txs (some tx, d) =
      In tx txs
      × (d ≡ verify_transaction exp tx t)
      × (rank d.outcome < 3)
      × ((other : ObservedTransaction) → In other txs → Leads (candidate exp t tx) other)
  Ranked txs (none, d) =
      (d.outcome ≡ not_found)
      × ((other : ObservedTransaction)
          → In other txs
          → rank (verify_transaction exp other t).outcome ≡ 3)

  rank_bound : (o : VerificationOutcome) → rank o ≤ 3
  unfolding rank
  rank_bound o = ground arith

  last_place :
      (a b : Candidate) → precedes exp t b a ≡ false → a.place ≡ 3 → b.place ≤ 3 → b.place ≡ 3
  last_place a b h e g = ground arith

  settle-Ranked :
      (txs : List ObservedTransaction) (tx : ObservedTransaction)
      → In tx txs
      → ((other : ObservedTransaction) → In other txs → Leads (candidate exp t tx) other)
      → Ranked txs (settle exp t (candidate exp t tx))
  unfolding settle
  settle-Ranked txs tx m leads =
      elim (Bool-cases (rank (verify_transaction exp tx t).outcome == 3)) [
        | inl last ↦ rw last (
          refl,
          λ other h.
              last_place (candidate exp t tx) (candidate exp t other) (leads other h)
                ((nat_eqb_iff _ 3).0 last) (rank_bound (verify_transaction exp other t).outcome),
        )
        | inr close ↦ rw close (
          m,
          refl,
          ground (arith, close, rank_bound (verify_transaction exp tx t).outcome),
          leads,
        )
      ]

  settle-From :
      (txs : List ObservedTransaction) (best : Candidate)
      → From txs best
      → ((other : ObservedTransaction) → In other txs → Leads best other)
      → Ranked txs (settle exp t best)
  settle-From txs best (tx, m, e) leads =
      subst (λ b. Ranked txs (settle exp t b)) (sym e)
        (settle-Ranked txs tx m (λ other h. subst (λ b. Leads b other) e (leads other h)))

  pub select_best_candidate-Ranked :
      (txs : List ObservedTransaction) → Ranked txs (select_best_candidate exp t txs)
  unfolding select_best_candidate
  select_best_candidate-Ranked [] = (refl, λ other h. absurd h.1)
  select_best_candidate-Ranked (tx ∷ txs) =
      settle-From (tx ∷ txs) (first_ranked exp t (candidate exp t tx) txs)
        (first_ranked-From (tx ∷ txs) (candidate exp t tx) txs (tx, inl refl, refl) (λ x m. inr m))
        (λ other h. elim h [
          | inl same ↦
              rw same
                (first_ranked_keeps (candidate exp t tx) txs (candidate exp t tx) (ground arith))
          | inr later ↦ first_ranked-Leads (candidate exp t tx) txs other later
        ])
