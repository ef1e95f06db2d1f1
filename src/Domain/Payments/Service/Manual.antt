-- ===== src/Domain/Payments/Service/Manual.antt =====
-- `approve_manually`, `reject_manually` and `expire_due` of app/domain/payments/service.py, with
-- `expired_open` of app/db/repositories/payments.py.
use professional_bot.Prelude.{
  ℕ, zero, suc, Bool, true, false, not, ◌&&◌, List, [], ◌∷◌, some, ◌==◌, nat_eq, if◌then◌else◌, any,
  contains, leb, take, Result, ok, err, ◌>>=◌, conflict,
}
use professional_bot.Prelude.Int.{pos}
use professional_bot.Prelude.Text.{Text}
use professional_bot.Db.Consumptions.{for_order}
use professional_bot.Db.Ledger.{LedgerEntry, DedupeKey}
use professional_bot.Domain.Enums.LedgerEntryType.{LedgerEntryType}
use professional_bot.Domain.Enums.PaymentStatus.{
  PaymentStatus, payment_status_eq, created, awaiting_payment, submitted, detecting, detected,
  pending_confirmation, verified, under_review, failed, expired,
}
use professional_bot.Domain.Payments.Verification.{VerificationDecision}
use professional_bot.Domain.Payments.Service.{PaymentIntent, Session, advance}
use professional_bot.Domain.Payments.Service.Outcomes.{on_intent, journal}
use professional_bot.Domain.Payments.Service.Record.{mark_verified, expire}

abbrev pub approvable : List PaymentStatus
approvable = under_review ∷ failed ∷ expired ∷ pending_confirmation ∷ detected ∷ []

abbrev pub approval_entry : PaymentIntent → LedgerEntry
approval_entry intent = record {
  entry_type = LedgerEntryType.manual_adjustment;
  amount = record { coef = pos 0; scale = 0 };
  dedupe_key = DedupeKey.manual_approval intent.id;
  order_id = some intent.order_id;
  payment_intent_id = some intent.id;
}

-- Another payment of the order has consumed a transaction.
unfoldable pub conflicting : Session → Bool
unfolding for_order
conflicting s =
    any (λ c. not (c.payment_intent_id == s.intent.id)) (for_order s.intent.order_id s.consumptions)

-- `expired_open`, of one payment.
unfoldable pub is_due : ℕ → Session → Bool
is_due now s =
    contains (created ∷ awaiting_payment ∷ submitted ∷ detecting ∷ []) s.intent.status
    && leb s.intent.expires_at now

module _ (iter : PaymentStatus → List PaymentStatus) (detail : VerificationDecision → Text) where
  unfoldable pub approve_manually : ℕ → Session → Result (Bool × Session)
  approve_manually now s =
      if s.intent.status == verified
      then ok (false, s)
      else if not (contains approvable s.intent.status)
      then err conflict
      else if conflicting s
      then err conflict
      else do
        (newly, done) ← mark_verified iter detail now s
        ok (newly, journal (approval_entry done.intent) done)

  unfoldable pub reject_manually : ℕ → Text → Session → Result Session
  reject_manually now reason s =
      if s.intent.status == verified
      then err conflict
      else advance iter failed (
          on_intent
            (λ i. record i { failure_reason = some (take 255 reason); failed_at = some now }) s)

  -- Each payment with its unit of work; at most `limit` of those that are due are taken.
  unfoldable pub expire_due : ℕ → ℕ → List Session → Result (ℕ × List Session)
  unfolding is_due expire
  expire_due now limit [] = ok (0, [])
  expire_due now zero (s ∷ rest) = ok (0, s ∷ rest)
  expire_due now (suc limit) (s ∷ rest) = elim (is_due now s) [
    | true ↦ do
      gone ← expire iter detail s
      (n, done) ← expire_due now limit rest
      ok (suc n, gone ∷ done)
    | false ↦ do (n, done) ← expire_due now (suc limit) rest; ok (n, s ∷ done)
  ]
