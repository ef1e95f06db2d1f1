-- ===== src/Domain/Payments/Service/Claims.antt =====
-- What the parts of `verify` in app/domain/payments/service.py do to the claims.
use professional_bot.Prelude.{
  ℕ, ◌≡◌, refl, sym, ◌∙◌, ap, subst, true, List, [], ◌∷◌, Option, none, some, arith, Bool-cases,
  inl, inr, ◌==◌, In, nat_eqb_iff, nat_eq,
}
use professional_bot.Prelude.Text.{Text, is_empty, or_empty}
use professional_bot.Db.Consumptions.{Consumption, get_by_fingerprint, claim, insert_unless}
use professional_bot.Db.Consumptions.Once.{claim-kept, claim-holder}
use professional_bot.Domain.Enums.PaymentStatus.{payment_status_eq}
use professional_bot.Domain.Enums.VerificationOutcome.{VerificationOutcome, verification_outcome_eq}
use professional_bot.Domain.Payments.Types.{PaymentExpectation, ObservedTransaction}
use professional_bot.Domain.Payments.Verification.{
  VerificationDecision, Tolerances, verify_transaction,
}
use professional_bot.Domain.Payments.Verification.Selection.{
  Selected, select_best_candidate-selects,
}
use professional_bot.Domain.Payments.Service.{Session}
use professional_bot.Domain.Payments.Service.Verify.{
  persist, judge, holds, as_duplicate, fingerprint_of, consumption, claim_for, survive,
}

-- One of `txs` that the engine accepts for `exp`.
abbrev pub Accepted :
    PaymentExpectation → Tolerances → List ObservedTransaction → Option ObservedTransaction → Type 0
Accepted exp t txs o =
    (tx : ObservedTransaction) × (o ≡ some tx)
    × In tx txs
    × ((verify_transaction exp tx t).outcome ≡ VerificationOutcome.verified)

Selected-Accepted :
    (exp : PaymentExpectation) (t : Tolerances) (txs : List ObservedTransaction)
    (r : Option ObservedTransaction × VerificationDecision)
    → Selected exp t txs r
    → r.1.outcome ≡ VerificationOutcome.verified
    → Accepted exp t txs r.0
Selected-Accepted exp t txs (some tx, d) h v = (tx, refl, h.0, sym (ap (λ x. x.outcome) h.1) ∙ v)
Selected-Accepted exp t txs (none, d) h v = absurd (cc (h.0, v))

pub judge-Accepted :
    (exp : PaymentExpectation) (t : Tolerances) (reference : Option Text)
    (txs : List ObservedTransaction)
    → (judge exp t reference txs).1.outcome ≡ VerificationOutcome.verified
    → Accepted exp t txs (judge exp t reference txs).0
unfolding judge
judge-Accepted exp t reference [] v =
    Selected-Accepted exp t [] _ (select_best_candidate-selects exp t []) v
judge-Accepted exp t reference (tx ∷ []) v = elim (Bool-cases (is_empty (or_empty reference))) [
  | inl unset ↦ rw unset (
      Selected-Accepted exp t (tx ∷ []) _ (select_best_candidate-selects exp t (tx ∷ []))
        (rw unset at v))
  | inr given ↦ rw given (tx, refl, inl refl, rw given at v)
]
judge-Accepted exp t reference (tx ∷ ty ∷ txs) v =
    Selected-Accepted exp t (tx ∷ ty ∷ txs) _ (select_best_candidate-selects exp t (tx ∷ ty ∷ txs))
      v

-- The fingerprint of `tx` is claimed in `s` for the payment of number `intent_id`.
abbrev pub ClaimedBy : (Text → Text) → ℕ → ObservedTransaction → Session → Type 0
ClaimedBy sha256 intent_id tx s =
    (c : Consumption) × (get_by_fingerprint (fingerprint_of sha256 tx) s.consumptions ≡ some c)
    × (c.payment_intent_id ≡ intent_id)

-- Every claim of `s` stands in `s'`.
abbrev pub Keeps : Session → Session → Type 0
Keeps s s' =
    (f : Text) (c : Consumption)
    → get_by_fingerprint f s.consumptions ≡ some c
    → get_by_fingerprint f s'.consumptions ≡ some c

pub persist-same :
    (o : Option ObservedTransaction) (s : Session)
    → ((persist o s).intent ≡ s.intent) × ((persist o s).consumptions ≡ s.consumptions)
unfolding persist
persist-same o s = ground arith

insert_unless-held :
    (o : Option Consumption) (d : Consumption) (cs : List Consumption)
    → holds d.payment_intent_id (insert_unless o d cs).0 ≡ true
    → (c : Consumption) × ((insert_unless o d cs).0.0 ≡ some c)
      × (c.payment_intent_id ≡ d.payment_intent_id)
unfolding insert_unless holds
insert_unless-held none d cs h = (d, refl, refl)
insert_unless-held (some e) d cs h =
    (e, refl, (nat_eqb_iff e.payment_intent_id d.payment_intent_id).0 h)

module _ (sha256 : Text → Text) where
  claim_for-ClaimedBy :
      (now : ℕ) (tx : ObservedTransaction) (s : Session)
      → (claim_for sha256 now tx s).0 ≡ true
      → ClaimedBy sha256 s.intent.id tx (claim_for sha256 now tx s).1
  unfolding claim_for claim
  claim_for-ClaimedBy now tx s h =
      let d = consumption sha256 now s.intent tx in
      let (c, e, mine) =
        insert_unless-held (get_by_fingerprint d.fingerprint s.consumptions) d s.consumptions h in
      (c, claim-holder d s.consumptions ∙ e, mine)

  claim_for-Keeps :
      (now : ℕ) (tx : ObservedTransaction) (s : Session) → Keeps s (claim_for sha256 now tx s).1
  unfolding claim_for
  claim_for-Keeps now tx s f c h =
      claim-kept (consumption sha256 now s.intent tx) s.consumptions f h

  pub survive-Keeps :
      (now : ℕ) (o : Option ObservedTransaction) (d : VerificationDecision) (s : Session)
      → Keeps s (survive sha256 now o d s).1
  unfolding survive
  survive-Keeps now none d s f c h = h
  survive-Keeps now (some tx) d s f c h =
      elim (Bool-cases (d.outcome == VerificationOutcome.verified)) [
        | inl v ↦ rw v (claim_for-Keeps now tx s f c h)
        | inr n ↦ rw n h
      ]

  pub survive-intent :
      (now : ℕ) (o : Option ObservedTransaction) (d : VerificationDecision) (s : Session)
      → (survive sha256 now o d s).1.intent ≡ s.intent
  unfolding survive claim_for
  survive-intent now o d s = ground arith

  -- A decision that is verified after the duplicate check was before it, and is claimed.
  survive-ClaimedBy :
      (now : ℕ) (tx : ObservedTransaction) (d : VerificationDecision) (s : Session)
      → (survive sha256 now (some tx) d s).0.outcome ≡ VerificationOutcome.verified
      → ClaimedBy sha256 s.intent.id tx (survive sha256 now (some tx) d s).1
  unfolding survive as_duplicate
  survive-ClaimedBy now tx d s h = elim (Bool-cases (d.outcome == VerificationOutcome.verified)) [
    | inl v ↦ elim (Bool-cases (claim_for sha256 now tx s).0) [
      | inl mine ↦ rw v (claim_for-ClaimedBy now tx s mine)
      | inr other ↦ absurd (cc (rw (v, other) at h))
    ]
    | inr n ↦ absurd (ground (arith, rw n at h))
  ]

  pub survive-verified :
      (now : ℕ) (o : Option ObservedTransaction) (d : VerificationDecision) (s : Session)
      → (survive sha256 now o d s).0.outcome ≡ VerificationOutcome.verified
      → d.outcome ≡ VerificationOutcome.verified
  unfolding survive as_duplicate
  survive-verified now o d s h = ground arith

  -- A decision that is verified after the duplicate check has claimed its transaction.
  pub survive-ClaimedBy_of :
      (now : ℕ) (o : Option ObservedTransaction) (d : VerificationDecision) (s : Session)
      (tx : ObservedTransaction)
      → o ≡ some tx
      → (survive sha256 now o d s).0.outcome ≡ VerificationOutcome.verified
      → ClaimedBy sha256 s.intent.id tx (survive sha256 now o d s).1
  survive-ClaimedBy_of now none d s tx e h = absurd (cc e)
  survive-ClaimedBy_of now (some ty) d s tx e h =
      let same : ty ≡ tx = cc e in
      subst (λ x. ClaimedBy sha256 s.intent.id x (survive sha256 now (some ty) d s).1) same
        (survive-ClaimedBy now ty d s h)
