-- ===== src/Domain/Payments/Service/Crediting.antt =====
-- `verify` of app/domain/payments/service.py: which transaction a payment is credited for, and the
-- claims before and after.
use professional_bot.Prelude.{
  ℕ, ◌≡◌, refl, sym, ◌∙◌, ap, subst, true, false, List, Option, none, some, ok, >>=-eq-ok,
  ok-injective, Bool-cases, inl, inr, ◌==◌, ◌||◌, In, nat_eq,
}
use professional_bot.Prelude.Text.{Text}
use professional_bot.Db.Consumptions.{Consumption, get_by_fingerprint}
use professional_bot.Domain.Enums.PaymentStatus.{PaymentStatus, payment_status_eq}
use professional_bot.Domain.Enums.VerificationOutcome.{VerificationOutcome, verification_outcome_eq}
use professional_bot.Domain.StateMachines.Paths.{IsIteration}
use professional_bot.Domain.Payments.Types.{ObservedTransaction}
use professional_bot.Domain.Payments.Verification.{
  VerificationDecision, Tolerances, verify_transaction,
}
use professional_bot.Domain.Payments.Service.{Session, expectation, set_status}
use professional_bot.Domain.Payments.Service.Outcomes.{Settings, VerificationResult}
use professional_bot.Domain.Payments.Service.Keeps.{Same, transition_intent-eq, record_outcome-Told}
use professional_bot.Domain.Payments.Service.Verify.{
  Reply, method_missing, misconfigured, provider_down, found, persist, judge, fingerprint_of,
  survive, settle_found, on_reply, start_detecting, latest_reference, verify, decided, health,
}
use professional_bot.Domain.Payments.Service.Claims.{
  judge-Accepted, ClaimedBy, Keeps, persist-same, survive-Keeps, survive-ClaimedBy_of,
  survive-verified,
}

-- What a pass that verifies the payment of `s` leaves in `s'`: one of the transactions that the provider
-- reported is accepted by the engine, and claimed for this payment, which is VERIFIED.
pub record Credited (sha256 : Text → Text) (t : Tolerances) (reply : Reply) (s s' : Session)
    : Type 0 where
  pub reported : List ObservedTransaction
  pub was_reported : reply ≡ found reported
  pub transaction : ObservedTransaction
  pub of_reported : In transaction reported
  pub accepted :
      (verify_transaction (expectation s.intent) transaction t).outcome
      ≡ VerificationOutcome.verified
  pub claimed : ClaimedBy sha256 s.intent.id transaction s'
  pub is_verified : s'.intent.status ≡ PaymentStatus.verified

ClaimedBy-Same :
    (sha256 : Text → Text) (i : ℕ) (tx : ObservedTransaction) (s s' : Session)
    → Same s s'
    → ClaimedBy sha256 i tx s
    → ClaimedBy sha256 i tx s'
ClaimedBy-Same sha256 i tx s s' same (c, e, mine) =
    (c, ap (get_by_fingerprint (fingerprint_of sha256 tx)) same.0 ∙ e, mine)

Keeps-Same : (s s' : Session) → Same s s' → Keeps s s'
Keeps-Same s s' same f c h = ap (get_by_fingerprint f) same.0 ∙ h

Keeps-trans : (a b c : Session) → Keeps a b → Keeps b c → Keeps a c
Keeps-trans a b c h g f d e = g f d (h f d e)

module _ (sha256 : Text → Text) (iter : PaymentStatus → List PaymentStatus)
    (iteration : IsIteration iter) (detail : VerificationDecision → Text) (settings : Settings)
    (t : Tolerances) (now : ℕ) where
  settle_found-Keeps :
      (reference : Option Text) (txs : List ObservedTransaction) (s : Session)
      (r : VerificationResult) (s' : Session)
      → settle_found sha256 iter detail settings t now reference txs s ≡ ok (r, s')
      → Keeps s s'
  unfolding settle_found
  settle_found-Keeps reference txs s r s' h =
      let o = (judge (expectation s.intent) t reference txs).0 in
      let d = (judge (expectation s.intent) t reference txs).1 in
      let kept = persist o s in
      let after = (survive sha256 now o d kept).1 in
      Keeps-trans s kept s' (λ f c e. ap (get_by_fingerprint f) (persist-same o s).1 ∙ e)
        (Keeps-trans kept after s' (survive-Keeps sha256 now o d kept) (
          Keeps-Same after s'
            (record_outcome-Told iter iteration detail settings now (survive sha256 now o d kept).0
              o after r s' h).0))

  settle_found-Credited :
      (reference : Option Text) (txs : List ObservedTransaction) (s : Session)
      (r : VerificationResult) (s' : Session)
      → settle_found sha256 iter detail settings t now reference txs s ≡ ok (r, s')
      → r.newly_verified ≡ true
      → Credited sha256 t (found txs) s s'
  unfolding settle_found
  settle_found-Credited reference txs s r s' h n =
      let o = (judge (expectation s.intent) t reference txs).0 in
      let d = (judge (expectation s.intent) t reference txs).1 in
      let kept = persist o s in
      let after = (survive sha256 now o d kept).1 in
      let told =
        record_outcome-Told iter iteration detail settings now (survive sha256 now o d kept).0 o
          after r s' h in
      let survived = (told.1 n).0 in
      let (tx, e, m, v) =
        judge-Accepted (expectation s.intent) t reference txs
          (survive-verified sha256 now o d kept survived) in
      record {
        reported = txs;
        was_reported = refl;
        transaction = tx;
        of_reported = m;
        accepted = v;
        claimed = ClaimedBy-Same sha256 s.intent.id tx after s' told.0 (
            subst (λ i. ClaimedBy sha256 i.id tx after) (persist-same o s).0
              (survive-ClaimedBy_of sha256 now o d kept tx e survived));
        is_verified = (told.1 n).1;
      }

  on_reply-Keeps :
      (reference : Option Text) (reply : Reply) (s : Session) (r : VerificationResult)
      (s' : Session)
      → on_reply sha256 iter detail settings t now reference reply s ≡ ok (r, s')
      → Keeps s s'
  unfolding on_reply
  on_reply-Keeps reference method_missing s r s' h = absurd (cc h)
  on_reply-Keeps reference misconfigured s r s' h =
      Keeps-Same s s'
        (record_outcome-Told iter iteration detail settings now
          (decided VerificationOutcome.unsupported) none s r s' h).0
  on_reply-Keeps reference provider_down s r s' h =
      Keeps-Same s s'
        (record_outcome-Told iter iteration detail settings now
          (decided VerificationOutcome.provider_error) none (health false s) r s' h).0
  on_reply-Keeps reference (found txs) s r s' h =
      settle_found-Keeps reference txs (health true s) r s' h

  on_reply-Credited :
      (reference : Option Text) (reply : Reply) (s : Session) (r : VerificationResult)
      (s' : Session)
      → on_reply sha256 iter detail settings t now reference reply s ≡ ok (r, s')
      → r.newly_verified ≡ true
      → Credited sha256 t reply s s'
  unfolding on_reply
  on_reply-Credited reference method_missing s r s' h n = absurd (cc h)
  on_reply-Credited reference misconfigured s r s' h n = absurd (
      cc
        ((record_outcome-Told iter iteration detail settings now
            (decided VerificationOutcome.unsupported) none s r s' h).1
          n).0)
  on_reply-Credited reference provider_down s r s' h n = absurd (
      cc
        ((record_outcome-Told iter iteration detail settings now
            (decided VerificationOutcome.provider_error) none (health false s) r s' h).1
          n).0)
  on_reply-Credited reference (found txs) s r s' h n =
      let c = settle_found-Credited reference txs (health true s) r s' h n in
      record {
        reported = c.reported;
        was_reported = c.was_reported;
        transaction = c.transaction;
        of_reported = c.of_reported;
        accepted = c.accepted;
        claimed = c.claimed;
        is_verified = c.is_verified;
      }

  -- Looking for a payment changes at most its status.
  start_detecting-eq :
      (s s' : Session)
      → start_detecting sha256 iter detail s ≡ ok s'
      → (q : PaymentStatus) × (s' ≡ set_status q s)
  unfolding start_detecting
  start_detecting-eq s s' h =
      elim (Bool-cases (
        s.intent.status == PaymentStatus.submitted
        || s.intent.status == PaymentStatus.awaiting_payment)) [
          | inl waits ↦ (
            PaymentStatus.detecting,
            transition_intent-eq PaymentStatus.detecting s s' (rw waits at h),
          )
          | inr other ↦ (s.intent.status, sym (ok-injective (rw other at h)))
        ]

  Credited-set_status :
      (reply : Reply) (q : PaymentStatus) (s s' : Session)
      → Credited sha256 t reply (set_status q s) s'
      → Credited sha256 t reply s s'
  unfolding expectation
  Credited-set_status reply q s s' c = record {
    reported = c.reported;
    was_reported = c.was_reported;
    transaction = c.transaction;
    of_reported = c.of_reported;
    accepted = c.accepted;
    claimed = c.claimed;
    is_verified = c.is_verified;
  }

  -- A verification pass that returns keeps every claim: a fingerprint that was consumed before it is
  -- consumed after it, by the same row.
  pub verify-Keeps :
      (reply : Reply) (s : Session) (r : VerificationResult) (s' : Session)
      → verify sha256 iter detail settings t now reply s ≡ ok (r, s')
      → Keeps s s'
  unfolding verify
  verify-Keeps reply s r s' h = elim (Bool-cases (s.intent.status == PaymentStatus.verified)) [
    | inl old ↦ subst (Keeps s) (ap (λ p. p.1) (ok-injective (rw old at h))) (λ f c e. e)
    | inr new ↦
        let (started, e, g) = >>=-eq-ok (start_detecting sha256 iter detail s) _ (rw new at h) in
        let (q, same) = start_detecting-eq s started e in
        Keeps-trans s started s' (subst (Keeps s) (sym same) (λ f c x. x))
          (on_reply-Keeps (latest_reference sha256 iter detail s) reply started r s' g)
  ]

  -- A verification pass that reports a new verification was answered with a list of transactions, of
  -- which the engine accepts one for this payment, whose fingerprint is then claimed for this
  -- payment; and the payment is VERIFIED.
  pub verify-Credited :
      (reply : Reply) (s : Session) (r : VerificationResult) (s' : Session)
      → verify sha256 iter detail settings t now reply s ≡ ok (r, s')
      → r.newly_verified ≡ true
      → Credited sha256 t reply s s'
  unfolding verify
  verify-Credited reply s r s' h n = elim (Bool-cases (s.intent.status == PaymentStatus.verified)) [
    | inl old ↦ absurd (cc (ap (λ p. p.0.newly_verified) (ok-injective (rw old at h)), n))
    | inr new ↦
        let (started, e, g) = >>=-eq-ok (start_detecting sha256 iter detail s) _ (rw new at h) in
        let (q, same) = start_detecting-eq s started e in
        Credited-set_status reply q s s' (
          subst (λ x. Credited sha256 t reply x s') same
            (on_reply-Credited (latest_reference sha256 iter detail s) reply started r s' g n))
  ]

-- Two passes that both verify a payment, the second on tables that keep the claims of the first:
-- if the transactions that they credit have one fingerprint, then they are passes on one payment.
pub verify-Credited_once :
    (sha256 : Text → Text) (iter : PaymentStatus → List PaymentStatus)
    (iteration : IsIteration iter) (detail : VerificationDecision → Text) (settings : Settings)
    (t : Tolerances) (now now' : ℕ) (reply reply' : Reply) (s s' u u' : Session)
    (r q : VerificationResult)
    → verify sha256 iter detail settings t now reply s ≡ ok (r, s')
    → r.newly_verified ≡ true
    → Keeps s' u
    → verify sha256 iter detail settings t now' reply' u ≡ ok (q, u')
    → q.newly_verified ≡ true
    → (a : Credited sha256 t reply s s') × (b : Credited sha256 t reply' u u') × (fingerprint_of
            sha256 a.transaction
          ≡ fingerprint_of sha256 b.transaction
        → s.intent.id ≡ u.intent.id)
verify-Credited_once sha256 iter iteration detail settings t now now' reply reply' s s' u u' r q
      first new later second new' =
    let a = verify-Credited sha256 iter iteration detail settings t now reply s r s' first new in
    let b =
      verify-Credited sha256 iter iteration detail settings t now' reply' u q u' second new' in
    let kept = verify-Keeps sha256 iter iteration detail settings t now' reply' u q u' second in
    let (c, e, mine) = a.claimed in
    let (d, f, yours) = b.claimed in
    (
      a,
      b,
      λ same.
          let still = kept _ c (later _ c e) in
          let row : c ≡ d =
            some-injective (sym still ∙ ap (λ x. get_by_fingerprint x u'.consumptions) same ∙ f) in
          sym mine ∙ ap (λ x. x.payment_intent_id) row ∙ yours,
    )
  where
    some-injective : {x y : Consumption} → some x ≡ some y → x ≡ y
    some-injective h = cc
