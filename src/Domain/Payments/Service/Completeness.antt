-- ===== src/Domain/Payments/Service/Completeness.antt =====
-- `verify` of app/domain/payments/service.py on a payment whose transaction is found and accepted.
use professional_bot.Prelude.{
  ℕ, ◌≡◌, ◌⊎◌, refl, sym, ◌∙◌, ap, subst, true, false, List, [], ◌∷◌, Option, none, some, arith,
  Result, ok, err, Bool-cases, inl, inr, ◌==◌, ◌||◌,
}
use professional_bot.Prelude.Text.{Text, is_empty, or_empty}
use professional_bot.Db.Consumptions.{get_by_fingerprint, claim, insert_unless}
use professional_bot.Db.Ledger.{DedupeKey, has_key}
use professional_bot.Db.Ledger.Once.{has_key-record_entry}
use professional_bot.Domain.Enums.OrderStatus.{OrderStatus, order_status_eq}
use professional_bot.Domain.Enums.PaymentStatus.{PaymentStatus, payment_status_eq}
use professional_bot.Domain.Enums.VerificationOutcome.{VerificationOutcome, verified}
use professional_bot.Domain.StateMachines.{
  assert_payment_transition, assert_order_transition, can_transition_payment,
}
use professional_bot.Domain.StateMachines.Paths.{IsIteration, IsLegal}
use professional_bot.Domain.Orders.Lifecycle.{Order, transition}
use professional_bot.Domain.Payments.Types.{ObservedTransaction}
use professional_bot.Domain.Payments.Verification.{
  VerificationDecision, Tolerances, verify_transaction,
}
use professional_bot.Domain.Payments.Service.{
  Session, expectation, set_status, transition_intent, advance,
}
use professional_bot.Domain.Payments.Service.Advance.{Advanced, advance-Advanced}
use professional_bot.Domain.Payments.Service.Outcomes.{
  Settings, VerificationResult, note_outcome, verify_order, payment_entry, verified_at_now,
}
use professional_bot.Domain.Payments.Service.Record.{
  mark_verified, on_verified, act, record_outcome,
}
use professional_bot.Domain.Payments.Service.Verify.{
  found, persist, judge, holds, fingerprint_of, claim_for, survive, settle_found, on_reply,
  start_detecting, latest_reference, health, verify,
}
use professional_bot.Domain.Payments.Service.Claims.{persist-same}

-- Looked for, or seen on the chain.
abbrev pub IsLooked : PaymentStatus → Type 0
IsLooked p =
    (p ≡ PaymentStatus.detecting)
    ⊎ (p ≡ PaymentStatus.detected)
    ⊎ (p ≡ PaymentStatus.verifying)
    ⊎ (p ≡ PaymentStatus.pending_confirmation)

-- Waiting for the customer, looked for, or seen.
abbrev pub IsPayable : PaymentStatus → Type 0
IsPayable p = (p ≡ PaymentStatus.awaiting_payment) ⊎ (p ≡ PaymentStatus.submitted) ⊎ IsLooked p

-- There is no order, or it may become PAYMENT_VERIFIED.
abbrev pub IsReady : Option Order → Type 0
IsReady none = Unit
IsReady (some o) = assert_order_transition o.status OrderStatus.payment_verified ≡ ok tt

abbrev route : PaymentStatus → List PaymentStatus
route PaymentStatus.detecting = PaymentStatus.verifying ∷ PaymentStatus.verified ∷ []
route _ = PaymentStatus.verified ∷ []

route-IsLegal : (p : PaymentStatus) → IsLooked p → IsLegal p (route p) PaymentStatus.verified
unfolding can_transition_payment
route-IsLegal p h = ground arith

verify_order_ready :
    (now : ℕ) (o : Option Order) → IsReady o → (o' : Option Order) × (verify_order now o ≡ ok o')
unfolding verify_order transition
verify_order_ready now none h = (none, refl)
verify_order_ready now (some o) h = elim (Bool-cases (o.status == OrderStatus.payment_verified)) [
  | inl same ↦ rw same (some o, refl)
  | inr other ↦ rw (other, h) (_, refl)
]

note_outcome-status :
    (d : VerificationDecision) (o : VerificationOutcome) (tx : Option ObservedTransaction)
    (s : Session)
    → (note_outcome d o tx s).intent.status ≡ s.intent.status
unfolding note_outcome
note_outcome-status d o none s = refl
note_outcome-status d o (some tx) s = refl

note_outcome-id :
    (d : VerificationDecision) (o : VerificationOutcome) (tx : Option ObservedTransaction)
    (s : Session)
    → (note_outcome d o tx s).intent.id ≡ s.intent.id
unfolding note_outcome
note_outcome-id d o none s = refl
note_outcome-id d o (some tx) s = refl

note_outcome-order :
    (d : VerificationDecision) (o : VerificationOutcome) (tx : Option ObservedTransaction)
    (s : Session)
    → (note_outcome d o tx s).order ≡ s.order
unfolding note_outcome
note_outcome-order d o tx s = refl

module _ (iter : PaymentStatus → List PaymentStatus) (iteration : IsIteration iter)
    (detail : VerificationDecision → Text) where
  pub advance-along :
      (target : PaymentStatus) (s : Session) (p : List PaymentStatus)
      → IsLegal s.intent.status p target
      → advance iter target s ≡ ok (set_status target s)
  advance-along target s p l = go (advance iter target s) (advance-Advanced iter iteration target s)
    where
      go : (r : Result Session) → Advanced target s r → r ≡ ok (set_status target s)
      go (ok s') h = ap ok h
      go (err e) h = absurd (h.1 p l)

  -- The payment is marked: VERIFIED, and journalled.
  abbrev pub Marked : ℕ → Session → Type 0
  Marked i s =
      (s.intent.status ≡ PaymentStatus.verified)
      × (has_key (DedupeKey.payment_verified i) s.ledger ≡ true)

  mark_verified-Marked :
      (now : ℕ) (s : Session)
      → IsLooked s.intent.status
      → IsReady s.order
      → (s' : Session) × (mark_verified iter detail now s ≡ ok (true, s')) × Marked s.intent.id s'
  unfolding mark_verified
  mark_verified-Marked now s looked ready =
      let new : (s.intent.status == PaymentStatus.verified) ≡ false = ground arith in
      let moved = set_status PaymentStatus.verified s in
      let (o, e) = verify_order_ready now s.order ready in
      rw
        (
          new,
          advance-along PaymentStatus.verified s (route s.intent.status)
              (route-IsLegal s.intent.status looked),
        )
        (rw e (
          _,
          refl,
          (refl, has_key-record_entry (payment_entry (verified_at_now now moved).intent) s.ledger),
        ))

  record_outcome-Marked :
      (settings : Settings) (now : ℕ) (d : VerificationDecision) (tx : Option ObservedTransaction)
      (s : Session)
      → d.outcome ≡ verified
      → IsLooked s.intent.status
      → IsReady s.order
      → (r : VerificationResult) × (s' : Session) × (record_outcome iter detail settings now d tx s
          ≡ ok (r, s'))
        × (r.newly_verified ≡ true)
        × Marked s.intent.id s'
  unfolding record_outcome act on_verified
  record_outcome-Marked settings now d tx s v looked ready =
      let noted = note_outcome d verified tx s in
      let (s', e, m) =
        mark_verified-Marked now noted
          (subst IsLooked (sym (note_outcome-status d verified tx s)) looked)
          (subst IsReady (sym (note_outcome-order d verified tx s)) ready) in
      rw v (rw e (_, _, refl, refl, subst (λ i. Marked i s') (note_outcome-id d verified tx s) m))

started :
    (sha256 : Text → Text) (iter : PaymentStatus → List PaymentStatus)
    (detail : VerificationDecision → Text) (s : Session)
    → IsPayable s.intent.status
    → (q : PaymentStatus) × (start_detecting sha256 iter detail s ≡ ok (set_status q s))
      × IsLooked q
unfolding start_detecting transition_intent assert_payment_transition
started sha256 iter detail s (inl awaiting) = rw awaiting (PaymentStatus.detecting, refl, inl refl)
started sha256 iter detail s (inr (inl sent)) = rw sent (PaymentStatus.detecting, refl, inl refl)
started sha256 iter detail s (inr (inr looked)) =
    let idle : (s.intent.status == PaymentStatus.submitted
          || s.intent.status == PaymentStatus.awaiting_payment)
        ≡ false =
      ground arith in
    rw idle (s.intent.status, refl, looked)

module _ (sha256 : Text → Text) (iter : PaymentStatus → List PaymentStatus)
    (iteration : IsIteration iter) (detail : VerificationDecision → Text) where
  survive_free :
      (now : ℕ) (tx : ObservedTransaction) (d : VerificationDecision) (s : Session)
      → d.outcome ≡ verified
      → get_by_fingerprint (fingerprint_of sha256 tx) s.consumptions ≡ none
      → ((survive sha256 now (some tx) d s).0 ≡ d)
        × ((survive sha256 now (some tx) d s).1.intent ≡ s.intent)
        × ((survive sha256 now (some tx) d s).1.order ≡ s.order)
  unfolding survive claim_for claim insert_unless holds
  survive_free now tx d s v free = rw (v, free) (refl, refl, refl)

  persist-order : (tx : Option ObservedTransaction) (s : Session) → (persist tx s).order ≡ s.order
  unfolding persist
  persist-order tx s = ground arith

  settle_found-Marked :
      (settings : Settings) (t : Tolerances) (now : ℕ) (reference : Option Text)
      (tx : ObservedTransaction) (s : Session)
      → is_empty (or_empty reference) ≡ false
      → (verify_transaction (expectation s.intent) tx t).outcome ≡ verified
      → get_by_fingerprint (fingerprint_of sha256 tx) s.consumptions ≡ none
      → IsLooked s.intent.status
      → IsReady s.order
      → (r : VerificationResult) × (s' : Session) × (settle_found sha256 iter detail settings t now
            reference
            (tx ∷ [])
            s
          ≡ ok (r, s'))
        × (r.newly_verified ≡ true)
        × Marked iter iteration detail s.intent.id s'
  unfolding settle_found judge
  settle_found-Marked settings t now reference tx s given v free looked ready =
      let d = verify_transaction (expectation s.intent) tx t in
      let kept = persist (some tx) s in
      let (same_d, same_i, same_o) =
        survive_free now tx d kept v (
          ap (get_by_fingerprint (fingerprint_of sha256 tx)) (persist-same (some tx) s).1 ∙ free) in
      let after = (survive sha256 now (some tx) d kept).1 in
      let intent_kept = same_i ∙ (persist-same (some tx) s).0 in
      rw (given, same_d)
        (subst
          (λ i.
            (r : VerificationResult) × (s' : Session) × (record_outcome iter detail settings now d
                (some tx) after
              ≡ ok (r, s'))
            × (r.newly_verified ≡ true)
            × Marked iter iteration detail i s')
          (ap (λ i. i.id) intent_kept)
          (record_outcome-Marked iter iteration detail settings now d (some tx) after v
            (subst IsLooked (sym (ap (λ i. i.status) intent_kept)) looked)
            (subst IsReady (sym (same_o ∙ persist-order (some tx) s)) ready)))

  -- For every iteration order: when a payment that is not settled has a submitted reference, for which
  -- the provider reports exactly one transaction, which the engine accepts and nobody has claimed, and
  -- its order, if there is one, may become PAYMENT_VERIFIED, then the pass returns, reports a new
  -- verification, and leaves the payment VERIFIED and journalled.
  pub verify-Marked :
      (settings : Settings) (t : Tolerances) (now : ℕ) (tx : ObservedTransaction) (s : Session)
      → is_empty (or_empty (latest_reference sha256 iter detail s)) ≡ false
      → (verify_transaction (expectation s.intent) tx t).outcome ≡ verified
      → get_by_fingerprint (fingerprint_of sha256 tx) s.consumptions ≡ none
      → IsPayable s.intent.status
      → IsReady s.order
      → (r : VerificationResult) × (s' : Session) × (verify sha256 iter detail settings t now
            (found (tx ∷ []))
            s
          ≡ ok (r, s'))
        × (r.newly_verified ≡ true)
        × Marked iter iteration detail s.intent.id s'
  unfolding verify on_reply expectation
  verify-Marked settings t now tx s given v free payable ready =
      let new : (s.intent.status == PaymentStatus.verified) ≡ false = ground arith in
      let (q, e, looked) = started sha256 iter detail s payable in
      rw (new, e)
        (settle_found-Marked settings t now (latest_reference sha256 iter detail s) tx
          (health true (set_status q s)) given v free looked ready)
