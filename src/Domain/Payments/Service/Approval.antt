-- ===== src/Domain/Payments/Service/Approval.antt =====
-- What a manual approval needs and leaves.
use professional_bot.Prelude.{
  ℕ, ◌≡◌, ◌≢◌, sym, ◌∙◌, ap, subst, Bool, true, false, not, List, [], ◌∷◌, arith, ok, >>=-eq-ok,
  ok-injective, Bool-cases, inl, inr, ◌==◌, contains, any, In, nat_eqb_iff, nat_eq,
}
use professional_bot.Prelude.Text.{Text}
use professional_bot.Db.Consumptions.{Consumption, for_order}
use professional_bot.Db.Ledger.{DedupeKey, has_key, record_entry}
use professional_bot.Db.Ledger.Once.{has_key-record_entry}
use professional_bot.Domain.Enums.PaymentStatus.{PaymentStatus, payment_status_eq, verified}
use professional_bot.Domain.StateMachines.Paths.{IsIteration}
use professional_bot.Domain.Payments.Verification.{VerificationDecision}
use professional_bot.Domain.Payments.Service.{Session}
use professional_bot.Domain.Payments.Service.Outcomes.{journal}
use professional_bot.Domain.Payments.Service.Record.{mark_verified}
use professional_bot.Domain.Payments.Service.Keeps.{mark_verified-Same}
use professional_bot.Domain.Payments.Service.Manual.{
  approvable, approval_entry, conflicting, approve_manually,
}

-- Every transaction that was consumed for `order_id` is `intent_id`'s.
abbrev pub OnlyBy : ℕ → ℕ → List Consumption → Type 0
OnlyBy intent_id order_id cs =
    (c : Consumption) → In c cs → c.order_id ≡ order_id → c.payment_intent_id ≡ intent_id

OnlyBy-cons :
    (i o : ℕ) (x : Consumption) (cs : List Consumption)
    → (x.order_id ≡ o → x.payment_intent_id ≡ i)
    → OnlyBy i o cs
    → OnlyBy i o (x ∷ cs)
OnlyBy-cons i o x cs h g c (inl same) e =
    ap (λ y. y.payment_intent_id) same ∙ h (sym (ap (λ y. y.order_id) same) ∙ e)
OnlyBy-cons i o x cs h g c (inr later) e = g c later e

for_order-OnlyBy :
    (i o : ℕ) (cs : List Consumption)
    → any (λ c. not (c.payment_intent_id == i)) (for_order o cs) ≡ false
    → OnlyBy i o cs
unfolding for_order
for_order-OnlyBy i o [] h = λ c m e. absurd m.1
for_order-OnlyBy i o (x ∷ cs) h = elim (Bool-cases (x.order_id == o)) [
  | inl of ↦ elim (Bool-cases (x.payment_intent_id == i)) [
    | inl mine ↦
        OnlyBy-cons i o x cs (λ e. (nat_eqb_iff x.payment_intent_id i).0 mine)
          (for_order-OnlyBy i o cs (rw (of, mine) at h))
    | inr other ↦ absurd (cc (rw (of, other) at h))
  ]
  | inr off ↦
      OnlyBy-cons i o x cs (λ e. absurd (cc (off, (nat_eqb_iff x.order_id o).1 e)))
        (for_order-OnlyBy i o cs (rw off at h))
]

-- What an approval that returns from `s` to `s'` shows.
pub record Approved (s s' : Session) : Type 0 where
  pub was_open : contains approvable s.intent.status ≡ true
  pub exclusive : OnlyBy s.intent.id s.intent.order_id s.consumptions
  pub is_verified : s'.intent.status ≡ verified
  pub same_claims : s'.consumptions ≡ s.consumptions
  pub journalled : has_key (DedupeKey.manual_approval s.intent.id) s'.ledger ≡ true

module _ (iter : PaymentStatus → List PaymentStatus) (iteration : IsIteration iter)
    (detail : VerificationDecision → Text) where
  marked-Approved :
      (now : ℕ) (s : Session) (b : Bool) (done : Session)
      → contains approvable s.intent.status ≡ true
      → conflicting s ≡ false
      → mark_verified iter detail now s ≡ ok (b, done)
      → Approved s (journal (approval_entry done.intent) done)
  unfolding conflicting
  marked-Approved now s b done open_for free e =
      let (same, status) = mark_verified-Same iter iteration detail now s b done e in
      record {
        was_open = open_for;
        exclusive = for_order-OnlyBy s.intent.id s.intent.order_id s.consumptions free;
        is_verified = status;
        same_claims = same.0;
        journalled =
            subst
              (λ i.
                has_key (DedupeKey.manual_approval i)
                  (record_entry (approval_entry done.intent) done.ledger).1
                ≡ true)
              same.1 (has_key-record_entry (approval_entry done.intent) done.ledger);
      }

  -- For every iteration order: approving a payment that is not VERIFIED returns only when its status
  -- is one of those that may be approved and no other payment of its order has consumed a transaction;
  -- then the payment is VERIFIED, without a claim that was made for it: the claims are as they were;
  -- and the approval is in the journal.
  pub approve_manually-Approved :
      (now : ℕ) (s : Session) (b : Bool) (s' : Session)
      → s.intent.status ≢ verified
      → approve_manually iter detail now s ≡ ok (b, s')
      → Approved s s'
  unfolding approve_manually
  approve_manually-Approved now s b s' open_status h =
      let new : (s.intent.status == verified) ≡ false =
        ground (arith, payment_status_eq.beq_iff s.intent.status verified) in
      elim (Bool-cases (contains approvable s.intent.status)) [
        | inr closed ↦ absurd (cc (rw (new, closed) at h))
        | inl open_for ↦ elim (Bool-cases (conflicting s)) [
          | inl taken ↦ absurd (cc (rw (new, open_for, taken) at h))
          | inr free ↦
              let (p, e, g) =
                >>=-eq-ok (mark_verified iter detail now s) _ (rw (new, open_for, free) at h) in
              let out : Bool × Session = (p.0, journal (approval_entry p.1.intent) p.1) in
              subst (Approved s) (ap (λ x. x.1) (ok-injective {x = out} g))
                (marked-Approved now s p.0 p.1 open_for free e)
        ]
      ]
