-- ===== src/Domain/Payments/Service/Record.antt =====
-- `_record_outcome` of app/domain/payments/service.py, with `_mark_verified`, `_to_review` and
-- `_expire`. `detail` gives a decision its words, which the engine's model leaves out.
use professional_bot.Prelude.{
  ℕ, ◌+◌, ◌*◌, min, Bool, true, false, List, Option, none, some, ◌==◌, if◌then◌else◌, leb, take,
  Result, ok, ◌>>=◌,
}
use professional_bot.Prelude.Text.{Text, codes}
use professional_bot.Domain.Enums.OrderStatus.{order_status_eq}
use professional_bot.Domain.Enums.PaymentStatus.{PaymentStatus, payment_status_eq}
use professional_bot.Domain.Enums.VerificationOutcome
use professional_bot.Domain.Enums.VerificationOutcome.{VerificationOutcome, verification_outcome_eq}
use professional_bot.Domain.Payments.Types.{ObservedTransaction}
use professional_bot.Domain.Payments.Verification.{VerificationDecision}
use professional_bot.Domain.Payments.Service.{Session, transition_intent, advance, poll_at}
use professional_bot.Domain.Payments.Service.Outcomes.{
  Settings, VerificationResult, on_intent, confirmation_backoff, payment_entry, journal,
  verify_order, verified_at_now, review_order, raise_reconciliation, note_outcome, detected,
}

-- `newly_verified`, `needs_review` and `retry_in`, with the state.
pub record Acted : Type 0 where
  pub newly_verified : Bool
  pub needs_review : Bool
  pub retry_in : Option ℕ
  pub session : Session

abbrev pub acted : Bool → Bool → Option ℕ → Session → Acted
acted newly review retry s = record {
  newly_verified = newly;
  needs_review = review;
  retry_in = retry;
  session = s;
}

module _ (iter : PaymentStatus → List PaymentStatus) (detail : VerificationDecision → Text) where
  unfoldable pub mark_verified : ℕ → Session → Result (Bool × Session)
  mark_verified now s = if s.intent.status == PaymentStatus.verified then ok (false, s) else do
    moved ← advance iter PaymentStatus.verified s
    order ← verify_order now moved.order
    let done = record (verified_at_now now moved) { order = order }
    ok (true, journal (payment_entry done.intent) done)

  unfoldable pub to_review : ℕ → Text → Session → Result Session
  to_review now reason s = do
    moved ←
        advance iter PaymentStatus.under_review
          (on_intent (λ i. record i { review_reason = some (take 255 reason) }) s)
    ok (record moved { order = review_order now reason moved.order })

  unfoldable pub expire : Session → Result Session
  expire s = do
    moved ← advance iter PaymentStatus.expired s
    ok (on_intent (λ i. record i { failure_reason = some (codes "payment window expired") }) moved)

  unfoldable pub on_not_found : Settings → ℕ → Session → Result Acted
  unfolding expire to_review transition_intent
  on_not_found settings now s =
      if leb s.intent.expires_at now
      then expire s >>= (λ gone. ok (acted false false none gone))
      else if leb settings.max_verification_attempts s.intent.verification_attempts
      then to_review now (codes "verification attempt limit reached") s
        >>= (λ parked. ok (acted false true none parked))
      else do
        moved ← transition_intent PaymentStatus.detecting s
        ok (acted false false (some settings.verification_poll_interval) moved)

  unfoldable pub on_provider_error : Settings → ℕ → Session → Result Acted
  unfolding to_review
  on_provider_error settings now s =
      let retry = some (min (settings.verification_poll_interval * 3) 180) in
      if leb settings.max_verification_attempts s.intent.verification_attempts
      then to_review now (codes "provider unavailable") s
        >>= (λ parked. ok (acted false true retry parked))
      else ok (acted false false retry s)

  -- `decision.detail or outcome.value`, where every decision that comes here has a detail.
  unfoldable pub on_review :
      ℕ
      → VerificationDecision
      → VerificationOutcome
      → Option ObservedTransaction
      → Session
      → Result Acted
  unfolding to_review raise_reconciliation
  on_review now decision outcome tx s = do
    parked ← to_review now (detail decision) s
    ok (acted false true none (raise_reconciliation outcome tx parked))

  unfoldable pub on_failure : ℕ → VerificationDecision → Session → Result Acted
  on_failure now decision s = do
    moved ← advance iter PaymentStatus.failed (
        on_intent
          (λ i. record i {
            failure_reason = some (take 255 (detail decision));
            failed_at = some now;
          })
          s)
    ok (acted false false none moved)

  unfoldable pub on_verified : ℕ → Session → Result Acted
  unfolding mark_verified
  on_verified now s = do (newly, done) ← mark_verified now s; ok (acted newly false none done)

  unfoldable pub on_pending : Settings → ℕ → Session → Result Acted
  unfolding confirmation_backoff
  on_pending settings now s = do
    moved ← advance iter PaymentStatus.pending_confirmation (on_intent (detected now) s)
    ok (acted false false (some (confirmation_backoff settings moved.intent)) moved)

  -- The branches on the outcome.
  unfoldable pub act :
      Settings
      → ℕ
      → VerificationDecision
      → VerificationOutcome
      → Option ObservedTransaction
      → Session
      → Result Acted
  unfolding VerificationOutcome.needs_review
  act settings now decision VerificationOutcome.verified tx s = on_verified now s
  act settings now decision VerificationOutcome.pending_confirmation tx s =
      on_pending settings now s
  act settings now decision VerificationOutcome.not_found tx s = on_not_found settings now s
  act settings now decision VerificationOutcome.provider_error tx s =
      on_provider_error settings now s
  act settings now decision outcome tx s =
      if VerificationOutcome.needs_review outcome
      then on_review now decision outcome tx s
      else on_failure now decision s

  -- `schedule_next_poll`
  abbrev pub schedule : ℕ → Option ℕ → Session → Session
  schedule now none s = s
  schedule now (some seconds) s = poll_at (now + seconds * 1000000) s

  unfoldable pub record_outcome :
      Settings
      → ℕ
      → VerificationDecision
      → Option ObservedTransaction
      → Session
      → Result (VerificationResult × Session)
  unfolding note_outcome act
  record_outcome settings now decision tx s = do
    a ← act settings now decision decision.outcome tx (note_outcome decision decision.outcome tx s)
    ok (
      record {
        outcome = decision.outcome;
        newly_verified = a.newly_verified;
        needs_review = a.needs_review;
        retry_in_seconds = a.retry_in;
      },
      schedule now a.retry_in a.session,
    )
