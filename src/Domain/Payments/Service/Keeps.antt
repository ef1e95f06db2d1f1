-- ===== src/Domain/Payments/Service/Keeps.antt =====
-- `_record_outcome` of app/domain/payments/service.py: what it does to the claims and the status.
use professional_bot.Prelude.{
  ℕ, ◌*◌, ◌≡◌, refl, sym, ◌∙◌, ap, subst, Bool, true, false, List, Option, none, some, arith,
  Result, ok, ◌>>=◌, >>=-eq-ok, ok-injective, Bool-cases, inl, inr, ◌==◌, eq_of_beq, leb, min,
}
use professional_bot.Prelude.Text.{Text, codes}
use professional_bot.Domain.Enums.PaymentStatus.{PaymentStatus, payment_status_eq}
use professional_bot.Domain.Enums.VerificationOutcome.{VerificationOutcome}
use professional_bot.Domain.StateMachines.{assert_payment_transition}
use professional_bot.Domain.StateMachines.Paths.{IsIteration}
use professional_bot.Domain.Payments.Types.{ObservedTransaction}
use professional_bot.Domain.Payments.Verification.{VerificationDecision}
use professional_bot.Domain.Payments.Service.{
  Session, PaymentIntent, set_status, transition_intent, advance,
}
use professional_bot.Domain.Payments.Service.Advance.{Advanced, advance-Advanced}
use professional_bot.Domain.Payments.Service.Outcomes.{
  Settings, VerificationResult, raise_reconciliation, note_outcome, verify_order,
  confirmation_backoff, on_intent, detected,
}
use professional_bot.Domain.Payments.Service.Record.{
  Acted, acted, mark_verified, to_review, expire, on_not_found, on_provider_error, on_review,
  on_failure, on_verified, on_pending, act, schedule, record_outcome,
}

-- The same claims, and the same payment.
abbrev pub Same : Session → Session → Type 0
Same s s' = (s'.consumptions ≡ s.consumptions) × (s'.intent.id ≡ s.intent.id)

Same-trans : (a b c : Session) → Same a b → Same b c → Same a c
Same-trans a b c h g = (g.0 ∙ h.0, g.1 ∙ h.1)

pub transition_intent-eq :
    (target : PaymentStatus) (s s' : Session)
    → transition_intent target s ≡ ok s'
    → s' ≡ set_status target s
unfolding transition_intent
transition_intent-eq target s s' h =
    sym (ok-injective (>>=-eq-ok (assert_payment_transition s.intent.status target) _ h).2)

-- The state after a step that succeeded, when it claims nothing and verifies only as told.
abbrev pub Told : VerificationOutcome → Session → Acted → Type 0
Told o s a =
    Same s a.session
    × (a.newly_verified ≡ true
        → (o ≡ VerificationOutcome.verified) × (a.session.intent.status ≡ PaymentStatus.verified))

-- A step that verifies nothing.
quiet :
    (o : VerificationOutcome) (s : Session) (review : Bool) (retry : Session → Option ℕ)
    (m : Result Session) (g : Session → Session) (a : Acted)
    → ((x : Session) → m ≡ ok x → Same s (g x))
    → (m >>= λ x. ok (acted false review (retry x) (g x))) ≡ ok a
    → Told o s a
quiet o s review retry m g a same h =
    let (x, e, r) = >>=-eq-ok m (λ x. ok (acted false review (retry x) (g x))) h in
    subst (Told o s) (ok-injective r) (same x e, λ n. cc)

module _ (iter : PaymentStatus → List PaymentStatus) (iteration : IsIteration iter)
    (detail : VerificationDecision → Text) where
  advance-eq :
      (target : PaymentStatus) (s s' : Session)
      → advance iter target s ≡ ok s'
      → s' ≡ set_status target s
  advance-eq target s s' h = subst (Advanced target s) h (advance-Advanced iter iteration target s)

  advance-Same :
      (target : PaymentStatus) (s s' : Session) → advance iter target s ≡ ok s' → Same s s'
  advance-Same target s s' h = subst (Same s) (sym (advance-eq target s s' h)) (refl, refl)

  to_review-Same :
      (now : ℕ) (reason : Text) (s s' : Session)
      → to_review iter detail now reason s ≡ ok s'
      → Same s s'
  unfolding to_review
  to_review-Same now reason s s' h =
      let (moved, e, g) = >>=-eq-ok (advance iter PaymentStatus.under_review _) _ h in
      subst (Same s) (ok-injective g) (advance-Same PaymentStatus.under_review _ moved e)

  expire-Same : (s s' : Session) → expire iter detail s ≡ ok s' → Same s s'
  unfolding expire
  expire-Same s s' h =
      let (moved, e, g) = >>=-eq-ok (advance iter PaymentStatus.expired s) _ h in
      subst (Same s) (ok-injective g) (advance-Same PaymentStatus.expired s moved e)

  on_not_found-Told :
      (o : VerificationOutcome) (settings : Settings) (now : ℕ) (s : Session) (a : Acted)
      → on_not_found iter detail settings now s ≡ ok a
      → Told o s a
  unfolding on_not_found
  on_not_found-Told o settings now s a h = elim (Bool-cases (leb s.intent.expires_at now)) [
    | inl over ↦
        quiet o s false (λ x. none) (expire iter detail s) (λ x. x) a (expire-Same s) (rw over at h)
    | inr due ↦
        elim (Bool-cases (leb settings.max_verification_attempts s.intent.verification_attempts)) [
          | inl many ↦
              let reason = codes "verification attempt limit reached" in
              quiet o s true (λ x. none) (to_review iter detail now reason s) (λ x. x) a
                (to_review-Same now reason s) (rw (due, many) at h)
          | inr few ↦
              quiet o s false (λ x. some settings.verification_poll_interval)
                (transition_intent PaymentStatus.detecting s) (λ x. x) a
                (λ x e.
                  subst (Same s) (sym (transition_intent-eq PaymentStatus.detecting s x e))
                    (refl, refl))
                (rw (due, few) at h)
        ]
  ]

  on_provider_error-Told :
      (o : VerificationOutcome) (settings : Settings) (now : ℕ) (s : Session) (a : Acted)
      → on_provider_error iter detail settings now s ≡ ok a
      → Told o s a
  unfolding on_provider_error
  on_provider_error-Told o settings now s a h =
      let retry = some (min (settings.verification_poll_interval * 3) 180) in
      let reason = codes "provider unavailable" in
      elim (Bool-cases (leb settings.max_verification_attempts s.intent.verification_attempts)) [
        | inl many ↦
            quiet o s true (λ x. retry) (to_review iter detail now reason s) (λ x. x) a
              (to_review-Same now reason s) (rw many at h)
        | inr few ↦
            quiet o s false (λ x. retry) (ok s) (λ x. x) a
              (λ x e. subst (Same s) (ok-injective e) (refl, refl)) (rw few at h)
      ]

  raise_reconciliation-Same :
      (o : VerificationOutcome) (tx : Option ObservedTransaction) (s : Session)
      → Same s (raise_reconciliation o tx s)
  unfolding raise_reconciliation
  raise_reconciliation-Same o tx s = ground arith

  on_review-Told :
      (o : VerificationOutcome) (now : ℕ) (d : VerificationDecision)
      (tx : Option ObservedTransaction) (s : Session) (a : Acted)
      → on_review iter detail now d o tx s ≡ ok a
      → Told o s a
  unfolding on_review
  on_review-Told o now d tx s a h =
      quiet o s true (λ x. none) (to_review iter detail now (detail d) s)
        (raise_reconciliation o tx) a
        (λ x e.
          Same-trans s x (raise_reconciliation o tx x) (to_review-Same now (detail d) s x e)
            (raise_reconciliation-Same o tx x))
        h

  on_failure-Told :
      (o : VerificationOutcome) (now : ℕ) (d : VerificationDecision) (s : Session) (a : Acted)
      → on_failure iter detail now d s ≡ ok a
      → Told o s a
  unfolding on_failure
  on_failure-Told o now d s a h =
      quiet o s false (λ x. none) (advance iter PaymentStatus.failed _) (λ x. x) a
        (λ x e. advance-Same PaymentStatus.failed _ x e) h

  detected-id : (now : ℕ) (i : PaymentIntent) → (detected now i).id ≡ i.id
  detected-id now i = ground arith

  on_pending-Told :
      (o : VerificationOutcome) (settings : Settings) (now : ℕ) (s : Session) (a : Acted)
      → on_pending iter detail settings now s ≡ ok a
      → Told o s a
  unfolding on_pending
  on_pending-Told o settings now s a h =
      let seen = on_intent (detected now) s in
      quiet o s false (λ x. some (confirmation_backoff settings x.intent))
        (advance iter PaymentStatus.pending_confirmation seen) (λ x. x) a
        (λ x e.
          Same-trans s seen x (refl, detected-id now s.intent)
            (advance-Same PaymentStatus.pending_confirmation seen x e))
        h

  -- A payment that is marked verified has that status.
  pub mark_verified-Same :
      (now : ℕ) (s : Session) (b : Bool) (s' : Session)
      → mark_verified iter detail now s ≡ ok (b, s')
      → Same s s' × (s'.intent.status ≡ PaymentStatus.verified)
  unfolding mark_verified
  mark_verified-Same now s b s' h = elim (Bool-cases (s.intent.status == PaymentStatus.verified)) [
    | inl old ↦
        subst (λ x. Same s x × (x.intent.status ≡ PaymentStatus.verified))
          (ap (λ p. p.1) (ok-injective (rw old at h)))
          ((refl, refl), eq_of_beq _ PaymentStatus.verified old)
    | inr new ↦
        let (moved, e, g) = >>=-eq-ok (advance iter PaymentStatus.verified s) _ (rw new at h) in
        let (order, e', g') = >>=-eq-ok (verify_order now moved.order) _ g in
        subst (λ x. Same s x × (x.intent.status ≡ PaymentStatus.verified))
          (ap (λ p. p.1) (ok-injective g'))
          (
            advance-Same PaymentStatus.verified s moved e,
            ap (λ x. x.intent.status) (advance-eq PaymentStatus.verified s moved e),
          )
  ]

  on_verified-Told :
      (now : ℕ) (s : Session) (a : Acted)
      → on_verified iter detail now s ≡ ok a
      → Told VerificationOutcome.verified s a
  unfolding on_verified
  on_verified-Told now s a h =
      let (p, e, g) = >>=-eq-ok (mark_verified iter detail now s) _ h in
      let (same, status) = mark_verified-Same now s p.0 p.1 e in
      subst (Told VerificationOutcome.verified s) (ok-injective g) (same, λ n. (refl, status))

  act-Told :
      (settings : Settings) (now : ℕ) (d : VerificationDecision) (o : VerificationOutcome)
      (tx : Option ObservedTransaction) (s : Session) (a : Acted)
      → act iter detail settings now d o tx s ≡ ok a
      → Told o s a
  unfolding act
  act-Told settings now d VerificationOutcome.verified tx s a h = on_verified-Told now s a h
  act-Told settings now d VerificationOutcome.pending_confirmation tx s a h =
      on_pending-Told _ settings now s a h
  act-Told settings now d VerificationOutcome.not_found tx s a h =
      on_not_found-Told _ settings now s a h
  act-Told settings now d VerificationOutcome.provider_error tx s a h =
      on_provider_error-Told _ settings now s a h
  act-Told settings now d VerificationOutcome.failed_transaction tx s a h =
      on_failure-Told _ now d s a h
  act-Told settings now d o tx s a h = on_review-Told o now d tx s a h

  note_outcome-Same :
      (d : VerificationDecision) (o : VerificationOutcome) (tx : Option ObservedTransaction)
      (s : Session)
      → Same s (note_outcome d o tx s)
  unfolding note_outcome
  note_outcome-Same d o none s = (refl, refl)
  note_outcome-Same d o (some tx) s = (refl, refl)

  schedule-Same :
      (now : ℕ) (retry : Option ℕ) (s : Session)
      → Same s (schedule iter detail now retry s)
        × ((schedule iter detail now retry s).intent.status ≡ s.intent.status)
  schedule-Same now none s = ((refl, refl), refl)
  schedule-Same now (some n) s = ((refl, refl), refl)

  -- Recording an outcome keeps the claims, and reports a new verification only for a verified
  -- decision, with the payment VERIFIED.
  pub record_outcome-Told :
      (settings : Settings) (now : ℕ) (d : VerificationDecision) (tx : Option ObservedTransaction)
      (s : Session) (r : VerificationResult) (s' : Session)
      → record_outcome iter detail settings now d tx s ≡ ok (r, s')
      → Same s s'
        × (r.newly_verified ≡ true
            → (d.outcome ≡ VerificationOutcome.verified)
              × (s'.intent.status ≡ PaymentStatus.verified))
  unfolding record_outcome
  record_outcome-Told settings now d tx s r s' h =
      let (a, e, g) =
        >>=-eq-ok (act iter detail settings now d d.outcome tx (note_outcome d d.outcome tx s)) _
          h in
      let noted = note_outcome d d.outcome tx s in
      let told = act-Told settings now d d.outcome tx noted a e in
      let later = schedule-Same now a.retry_in a.session in
      subst
        (λ x.
          Same s x.1
          × (x.0.newly_verified ≡ true
              → (d.outcome ≡ VerificationOutcome.verified)
                × (x.1.intent.status ≡ PaymentStatus.verified)))
        (ok-injective g)
        (
          Same-trans s noted (schedule iter detail now a.retry_in a.session)
              (note_outcome-Same d d.outcome tx s)
              (Same-trans noted a.session (schedule iter detail now a.retry_in a.session) told.0
                later.0),
          λ n. ((told.1 n).0, later.1 ∙ (told.1 n).1),
        )
