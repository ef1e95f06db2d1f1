-- ===== src/Domain/Payments/Creation/Again.antt =====
-- A second call of `create_intent` of app/domain/payments/service.py for an order.
use professional_bot.Prelude.{
  ℕ, true, ◌≡◌, refl, ◌∙◌, ap, List, ◌∷◌, Option, ok, err, nat_eq, beq_of_eq, integrity_error,
}
use professional_bot.Prelude.Int.{ℤ}
use professional_bot.Prelude.Text.{Text, text_eq}
use professional_bot.Core.Money.{Decimal, base_units}
use professional_bot.Domain.Enums.PaymentStatus
use professional_bot.Domain.Enums.PaymentStatus.{PaymentStatus}
use professional_bot.Domain.Orders.Lifecycle.{Order}
use professional_bot.Domain.Payments.Quote.{quote_expected_amount}
use professional_bot.Domain.Payments.Service.{PaymentIntent}
use professional_bot.Domain.Payments.Creation.{
  PaymentMethod, move, cancel_active, window_of, check_method, check_limits, new_intent,
  insert_intent, create_intent,
}
use professional_bot.Domain.Payments.Creation.Created.{create_intent-Created}
use professional_bot.Domain.StateMachines.{assert_payment_transition, can_transition_payment}

opened : PaymentStatus.is_open PaymentStatus.awaiting_payment ≡ true
unfolding PaymentStatus.is_open
opened = refl

allowed : assert_payment_transition PaymentStatus.awaiting_payment PaymentStatus.cancelled ≡ ok tt
unfolding assert_payment_transition can_transition_payment PaymentStatus.transitions
allowed = refl

-- The payment that awaits is the one that is cancelled.
cancels :
    (i : PaymentIntent) (others : List PaymentIntent) (order_id : ℕ)
    → i.order_id ≡ order_id
    → i.status ≡ PaymentStatus.awaiting_payment
    → cancel_active order_id (i ∷ others)
      ≡ ok (record i { status = PaymentStatus.cancelled } ∷ others)
unfolding cancel_active move
cancels i others order_id own awaits =
    let open_now = ap PaymentStatus.is_open awaits ∙ opened in
    let moved = ap (λ s. assert_payment_transition s PaymentStatus.cancelled) awaits ∙ allowed in
    rw (beq_of_eq i.order_id order_id own, open_now, moved) refl

taken :
    (i made : PaymentIntent) (others : List PaymentIntent)
    → i.reference ≡ made.reference
    → insert_intent made (i ∷ others) ≡ err integrity_error
unfolding insert_intent
taken i made others same = rw (beq_of_eq i.reference made.reference same) refl

-- After a payment was created for an order, another one for the order cannot be: where the order, the other method and
-- the quote pass every check of the call, it cancels the payment that awaits, and then raises IntegrityError, because
-- the reference of a payment is that of its order, and is UNIQUE.
pub create_intent_again :
    (format : Text → Text → Text) (row row' now now' default : ℕ) (order : Order)
    (method method' : PaymentMethod) (window window' : Option ℕ) (before after : List PaymentIntent)
    (intent : PaymentIntent) (amount : Decimal) (units : ℤ)
    → create_intent format row now default order method window before ≡ ok (intent, after)
    → check_method order method' ≡ ok tt
    → quote_expected_amount order.total method'.quote_rate method'.asset_decimals ≡ ok amount
    → check_limits amount method' ≡ ok tt
    → base_units amount method'.asset_decimals ≡ ok units
    → create_intent format row' now' default order method' window' after ≡ err integrity_error
unfolding create_intent
create_intent_again format row row' now now' default order method method' window window' before
      after intent amount units h c q l u =
    let first =
      create_intent-Created format row now default order method window before after intent h in
    let made =
      new_intent format row' now' (window_of window' method' default) order method' amount units in
    rw
      (
        first.added,
        c,
        q,
        l,
        cancels intent first.others order.id first.own.0 first.awaits,
        u,
        taken (record intent { status = PaymentStatus.cancelled }) made first.others first.own.1,
      )
      refl
