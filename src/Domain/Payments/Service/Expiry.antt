-- ===== src/Domain/Payments/Service/Expiry.antt =====
-- `expire_due` of app/domain/payments/service.py, payment by payment.
use professional_bot.Prelude.{
  ℕ, zero, suc, ◌≤◌, ◌≡◌, ◌⊎◌, refl, true, List, [], ◌∷◌, some, arith, ok, Bool-cases, inl, inr,
  nat_eq,
}
use professional_bot.Prelude.Text.{Text, codes}
use professional_bot.Domain.Enums.PaymentStatus.{
  PaymentStatus, payment_status_eq, created, awaiting_payment, submitted, detecting, expired,
}
use professional_bot.Domain.StateMachines.{can_transition_payment}
use professional_bot.Domain.StateMachines.Paths.{IsIteration}
use professional_bot.Domain.Payments.Verification.{VerificationDecision}
use professional_bot.Domain.Payments.Service.{PaymentIntent, Session}
use professional_bot.Domain.Payments.Service.Record.{expire}
use professional_bot.Domain.Payments.Service.Completeness.{advance-along}
use professional_bot.Domain.Payments.Service.Manual.{is_due, expire_due}

-- A payment that waits for its transfer, and whose window is over.
abbrev pub Lapsed : ℕ → PaymentIntent → Type 0
Lapsed now i =
    ((i.status ≡ created)
      ⊎ ((i.status ≡ awaiting_payment) ⊎ ((i.status ≡ submitted) ⊎ (i.status ≡ detecting))))
    × (i.expires_at ≤ now)

-- Only its status and the reason for it are new.
abbrev pub lapsed : Session → Session
lapsed s = record s {
  intent = record s.intent {
    status = expired;
    failure_reason = some (codes "payment window expired");
  };
}

-- The payments before and after a sweep that may take `limit` and takes `n`.
pub data Swept (now : ℕ) : ℕ → ℕ → List Session → List Session → Type 0 where
  over : {limit : ℕ} → Swept now limit 0 [] []
  full : {ss : List Session} → Swept now 0 0 ss ss
  lapses :
      {limit n : ℕ} {s u : Session} {ss us : List Session}
      → Lapsed now s.intent
      → u ≡ lapsed s
      → Swept now limit n ss us
      → Swept now (suc limit) (suc n) (s ∷ ss) (u ∷ us)
  stays :
      {limit n : ℕ} {s : Session} {ss us : List Session}
      → ¬ Lapsed now s.intent
      → Swept now (suc limit) n ss us
      → Swept now (suc limit) n (s ∷ ss) (s ∷ us)

is_due-Lapsed : (now : ℕ) (s : Session) → is_due now s ≡ true → Lapsed now s.intent
unfolding is_due
is_due-Lapsed now s h = ground arith

Lapsed-is_due : (now : ℕ) (s : Session) → Lapsed now s.intent → is_due now s ≡ true
unfolding is_due
Lapsed-is_due now s h = ground arith

due_lapses :
    (now : ℕ) (s : Session)
    → is_due now s ≡ true
    → can_transition_payment s.intent.status expired ≡ true
unfolding is_due can_transition_payment
due_lapses now s h = ground arith

module _ (iter : PaymentStatus → List PaymentStatus) (iteration : IsIteration iter)
    (detail : VerificationDecision → Text) where
  expire-due : (now : ℕ) (s : Session) → is_due now s ≡ true → expire iter detail s ≡ ok (lapsed s)
  unfolding expire
  expire-due now s h =
      rw (advance-along iter iteration detail expired s (expired ∷ []) (due_lapses now s h, refl))
        refl

  -- For every iteration order, `expire_due` returns: going through the payments, it expires each one
  -- that is CREATED, AWAITING_PAYMENT, SUBMITTED or DETECTING and whose window is over, until as many
  -- as the limit are expired; of these payments only the status and the reason for it change; it
  -- leaves every other payment as it was, and returns the number of those that it expired.
  pub expire_due-Swept :
      (now limit : ℕ) (ss : List Session)
      → (n : ℕ) × (us : List Session) × (expire_due iter detail now limit ss ≡ ok (n, us))
        × Swept now limit n ss us
  unfolding expire_due
  expire_due-Swept now limit [] = (0, [], refl, Swept.over)
  expire_due-Swept now zero (s ∷ rest) = (0, s ∷ rest, refl, Swept.full)
  expire_due-Swept now (suc limit) (s ∷ rest) = elim (Bool-cases (is_due now s)) [
    | inl due ↦
        let e = expire-due now s due in
        let (n, us, g, swept) = expire_due-Swept now limit rest in
        rw (expire_due, due)
          (rw e
            (rw g (suc n, lapsed s ∷ us, refl, Swept.lapses (is_due-Lapsed now s due) refl swept)))
    | inr idle ↦
        let (n, us, g, swept) = expire_due-Swept now (suc limit) rest in
        rw (expire_due, idle)
          (rw g (n, s ∷ us, refl, Swept.stays (λ h. cc (idle, Lapsed-is_due now s h)) swept))
  ]
