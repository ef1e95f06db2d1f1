-- ===== src/Domain/Payments/Service/Defects.antt =====
-- Two calls of app/domain/payments/service.py that raise.
use professional_bot.Prelude.{
  ℕ, ◌+◌, ◌<◌, ◌≡◌, ◌⊎◌, refl, ap, Bool, true, false, List, [], Option, none, some, arith, Result,
  ok, err, ◌>>=◌, invalid_transition, ◌==◌, ◌||◌, leb, contains,
}
use professional_bot.Prelude.Text.{Text}
use professional_bot.Domain.Enums.OrderStatus
use professional_bot.Domain.Enums.PaymentStatus.{PaymentStatus, payment_status_eq}
use professional_bot.Domain.Enums.VerificationOutcome.{not_found}
use professional_bot.Domain.StateMachines.{assert_payment_transition, assert_order_transition}
use professional_bot.Domain.StateMachines.Paths.{IsIteration}
use professional_bot.Domain.Orders.Lifecycle.{Order, transition}
use professional_bot.Domain.Payments.Verification.{
  VerificationDecision, Tolerances, select_best_candidate,
}
use professional_bot.Domain.Payments.Service.{Session, expectation, transition_intent, advance}
use professional_bot.Domain.Payments.Service.Advance.{Advanced, advance-Advanced}
use professional_bot.Domain.Payments.Service.Outcomes.{Settings, note_outcome, verify_order}
use professional_bot.Domain.Payments.Service.Record.{
  on_not_found, act, record_outcome, mark_verified,
}
use professional_bot.Domain.Payments.Service.Verify.{
  found, judge, persist, survive, settle_found, on_reply, start_detecting, verify, health,
}
use professional_bot.Domain.Payments.Service.Manual.{approve_manually, approvable, conflicting}

-- Seen on the chain, but not final.
abbrev pub IsSeen : PaymentStatus → Type 0
IsSeen p =
    (p ≡ PaymentStatus.detected)
    ⊎ (p ≡ PaymentStatus.verifying)
    ⊎ (p ≡ PaymentStatus.pending_confirmation)

seen_stays :
    (p : PaymentStatus)
    → IsSeen p
    → assert_payment_transition p PaymentStatus.detecting ≡ err invalid_transition
unfolding assert_payment_transition
seen_stays p h = ground arith

module _ (sha256 : Text → Text) (iter : PaymentStatus → List PaymentStatus)
    (detail : VerificationDecision → Text) where
  on_not_found_seen :
      (settings : Settings) (now : ℕ) (s : Session)
      → IsSeen s.intent.status
      → now < s.intent.expires_at
      → s.intent.verification_attempts < settings.max_verification_attempts
      → on_not_found iter detail settings now s ≡ err invalid_transition
  unfolding on_not_found transition_intent
  on_not_found_seen settings now s seen due few =
      let a : leb s.intent.expires_at now ≡ false = ground arith in
      let b : leb settings.max_verification_attempts s.intent.verification_attempts ≡ false =
        ground arith in
      rw (a, b, seen_stays s.intent.status seen) refl

  record_outcome_seen :
      (settings : Settings) (now : ℕ) (d : VerificationDecision) (s : Session)
      → d.outcome ≡ not_found
      → IsSeen s.intent.status
      → now < s.intent.expires_at
      → s.intent.verification_attempts + 1 < settings.max_verification_attempts
      → record_outcome iter detail settings now d none s ≡ err invalid_transition
  unfolding record_outcome note_outcome act
  record_outcome_seen settings now d s e seen due few =
      rw e (rw (on_not_found_seen settings now (note_outcome d not_found none s) seen due few) refl)

  -- When the provider, asked about a payment that was seen before, reports no transaction, the window
  -- is open and attempts are left, the pass raises `InvalidStateTransition`.
  pub verify-seen_raises :
      (settings : Settings) (t : Tolerances) (now : ℕ) (s : Session)
      → IsSeen s.intent.status
      → now < s.intent.expires_at
      → s.intent.verification_attempts + 1 < settings.max_verification_attempts
      → verify sha256 iter detail settings t now (found []) s ≡ err invalid_transition
  unfolding verify on_reply settle_found judge select_best_candidate persist survive start_detecting
  verify-seen_raises settings t now s seen due few =
      let unverified : (s.intent.status == PaymentStatus.verified) ≡ false = ground arith in
      let looked_for : (s.intent.status == PaymentStatus.submitted
            || s.intent.status == PaymentStatus.awaiting_payment)
          ≡ false =
        ground arith in
      rw (unverified, looked_for)
        (record_outcome_seen settings now (select_best_candidate (expectation s.intent) t []).1
          (health true s) refl seen due few)

module _ (iter : PaymentStatus → List PaymentStatus) (iteration : IsIteration iter)
    (detail : VerificationDecision → Text) where
  verify_order-expired :
      (now : ℕ) (o : Order)
      → o.status ≡ OrderStatus.expired
      → verify_order now (some o) ≡ err invalid_transition
  unfolding verify_order transition assert_order_transition
  verify_order-expired now o h = ground arith

  after_advance :
      (now : ℕ) (s : Session) (o : Order) (r : Result Session)
      (k : Session → Option Order → Result (Bool × Session))
      → Advanced PaymentStatus.verified s r
      → s.order ≡ some o
      → o.status ≡ OrderStatus.expired
      → (r >>= λ moved. (verify_order now moved.order >>= k moved)) ≡ err invalid_transition
  after_advance now s o (ok moved) k h e x = rw (h, e, verify_order-expired now o x) refl
  after_advance now s o (err c) k h e x = ap err h.0

  mark_verified-expired :
      (now : ℕ) (s : Session) (o : Order)
      → (s.intent.status == PaymentStatus.verified) ≡ false
      → s.order ≡ some o
      → o.status ≡ OrderStatus.expired
      → mark_verified iter detail now s ≡ err invalid_transition
  unfolding mark_verified
  mark_verified-expired now s o new e x = rw new (
      after_advance now s o (advance iter PaymentStatus.verified s) _
        (advance-Advanced iter iteration PaymentStatus.verified s) e x)

  -- For every iteration order, approving an expired payment raises `InvalidStateTransition` when its
  -- order has expired too and no other payment of the order has consumed a transaction.
  pub approve_manually-expired_raises :
      (now : ℕ) (s : Session) (o : Order)
      → s.intent.status ≡ PaymentStatus.expired
      → s.order ≡ some o
      → o.status ≡ OrderStatus.expired
      → conflicting s ≡ false
      → approve_manually iter detail now s ≡ err invalid_transition
  unfolding approve_manually
  approve_manually-expired_raises now s o late e x free =
      let new : (s.intent.status == PaymentStatus.verified) ≡ false = ground arith in
      let open_for : contains approvable s.intent.status ≡ true = ground arith in
      rw (new, open_for, free, mark_verified-expired now s o new e x) refl
