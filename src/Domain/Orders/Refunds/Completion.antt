-- ===== src/Domain/Orders/Refunds/Completion.antt =====
-- What completing a refund changes.
use professional_bot.Prelude.{
  ℕ, ◌≡◌, ◌≢◌, ◌⊎◌, inl, inr, refl, true, false, List, Option, none, some, arith, Result, ok, err,
  ap, subst₂, Bool-cases,
}
use professional_bot.Prelude.Int.{◌≤ℤ◌, leb_ℤ}
use professional_bot.Prelude.Text.{Text, is_empty, strip}
use professional_bot.Db.Ledger.{has_key, DedupeKey}
use professional_bot.Db.Ledger.Once.{IsJournal, record_entry-IsJournal, has_key-record_entry}
use professional_bot.Domain.Enums.OrderStatus.{refunded}
use professional_bot.Domain.Enums.RefundStatus.{approved, processing, completed}
use professional_bot.Domain.Orders.Lifecycle.{Order, transition}
use professional_bot.Domain.Orders.Lifecycle.Stamps.{Moved, transition-Moved}
use professional_bot.Domain.Orders.Refunds.{
  Refund, VerifiedPayment, refunded_total, paid_for, Books, complete, executed, settled,
  close_order, refund_entry, store_refund, or_unchanged,
}

-- The order is left alone, or what is refunded covers the payment and the order is REFUNDED.
abbrev pub Closed : ℕ → Option VerifiedPayment → List Refund → Option Order → Option Order → Type 0
Closed now intent refunds none o' = o' ≡ none
Closed now intent refunds (some o) o' =
    (o' ≡ some o)
    ⊎ ((paid_for intent o ≤ℤ refunded_total o.id refunds)
        × (m : Order) × (o' ≡ some m)
        × Moved now refunded o m)

or_unchanged-Closed :
    (now : ℕ) (o : Order) (r : Result Order)
    → transition now none refunded o ≡ r
    → (or_unchanged o r ≡ o) ⊎ Moved now refunded o (or_unchanged o r)
or_unchanged-Closed now o (ok m) h = inr (transition-Moved now none refunded o m h)
or_unchanged-Closed now o (err e) h = inl refl

close_order-Closed :
    (now : ℕ) (intent : Option VerifiedPayment) (refunds : List Refund) (o : Option Order)
    → Closed now intent refunds o (close_order now intent refunds o)
unfolding close_order
close_order-Closed now intent refunds none = refl
close_order-Closed now intent refunds (some o) =
    elim (Bool-cases (leb_ℤ (paid_for intent o) (refunded_total o.id refunds))) [
      | inl covered ↦ rw covered (elim (or_unchanged-Closed now o _ refl) [
        | inl same ↦ inl (ap some same)
        | inr moved ↦ inr (ground arith, _, refl, moved)
      ])
      | inr short ↦ rw short (inl refl)
    ]

pub record Completed (now : ℕ) (reference : Text) (intent : Option VerifiedPayment) (r : Refund)
    (b : Books) (r' : Refund) (b' : Books) : Type 0 where
  pub was_sent : (r.status ≡ approved) ⊎ (r.status ≡ processing)
  pub evidence : is_empty (strip reference) ≡ false
  pub finished : r'.status ≡ completed
  pub same_amount : r'.amount ≡ r.amount
  pub stored : b'.refunds ≡ store_refund r' b.refunds
  pub journalled : has_key (DedupeKey.refund r.id) b'.ledger ≡ true
  pub journal : IsJournal b.ledger → IsJournal b'.ledger
  pub closed : Closed now intent b'.refunds b.order b'.order

settled-Completed :
    (now : ℕ) (reference : Text) (intent : Option VerifiedPayment) (r : Refund) (b : Books)
    → (r.status ≡ approved) ⊎ (r.status ≡ processing)
    → is_empty (strip reference) ≡ false
    → Completed now reference intent r b
        (executed now reference r)
        (settled now intent (executed now reference r) b)
unfolding executed settled
settled-Completed now reference intent r b sent given = record {
  was_sent = sent;
  evidence = given;
  finished = refl;
  same_amount = refl;
  stored = refl;
  journalled =
      unfold refund_entry in
      has_key-record_entry (refund_entry (executed now reference r)) b.ledger;
  journal = record_entry-IsJournal (refund_entry (executed now reference r)) b.ledger;
  closed =
      close_order-Closed now intent (store_refund (executed now reference r) b.refunds) b.order;
}

complete_guards :
    (now : ℕ) (reference : Text) (intent : Option VerifiedPayment) (r : Refund) (b : Books)
    (r' : Refund) (b' : Books)
    → r.status ≢ completed
    → complete now reference intent r b ≡ ok (r', b')
    → ((r.status ≡ approved) ⊎ (r.status ≡ processing))
      × (is_empty (strip reference) ≡ false)
      × (executed now reference r ≡ r')
      × (settled now intent (executed now reference r) b ≡ b')
unfolding complete
complete_guards now reference intent r b r' b' open_refund h = ground arith

-- Completing a refund that is not completed succeeds only for one that is approved or processing,
-- with a reference that is not blank; it leaves the amount, stores the completed refund in its
-- place, leaves its entry in the journal, in which no key comes to stand twice, and changes the
-- order at most to REFUNDED, and that only when the refunded total covers the payment.
pub complete-Completed :
    (now : ℕ) (reference : Text) (intent : Option VerifiedPayment) (r : Refund) (b : Books)
    (r' : Refund) (b' : Books)
    → r.status ≢ completed
    → complete now reference intent r b ≡ ok (r', b')
    → Completed now reference intent r b r' b'
complete-Completed now reference intent r b r' b' open_refund h =
    let (sent, given, er, eb) = complete_guards now reference intent r b r' b' open_refund h in
    subst₂ (Completed now reference intent r b) er eb
      (settled-Completed now reference intent r b sent given)
