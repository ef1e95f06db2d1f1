-- ===== src/Domain/Payments/Creation/Created.antt =====
-- What `create_intent` of app/domain/payments/service.py freezes.
use professional_bot.Prelude.{
  ℕ, ◌+◌, Bool, true, false, not, ◌||◌, ◌≡◌, refl, subst, List, ◌∷◌, Option, ok, raise_if,
  raise_if-eq-ok, >>=-eq-ok, ok-injective, ◌>>◌, ◌==◌, any, seconds, conflict, configuration,
  validation, integrity_error,
}
use professional_bot.Prelude.Int.{ℤ, pos, leb_ℤ}
use professional_bot.Prelude.Text.{Text, text_eq, is_empty, or_empty}
use professional_bot.Core.Money.{Decimal, base_units, quantize, half_up, money_scale}
use professional_bot.Domain.Enums.OrderStatus
use professional_bot.Domain.Enums.PaymentStatus
use professional_bot.Domain.Enums.PaymentStatus.{PaymentStatus}
use professional_bot.Domain.Orders.Lifecycle.{Order}
use professional_bot.Domain.Payments.Fingerprint.{normalize_address}
use professional_bot.Domain.Payments.Quote.{quote_expected_amount}
use professional_bot.Domain.Payments.Service.{PaymentIntent, expectation}
use professional_bot.Domain.Payments.Creation.{
  PaymentMethod, move, cancel_active, window_of, below_minimum, above_maximum, check_method,
  check_limits, memo_of, new_intent, insert_intent, create_intent,
}
use professional_bot.Domain.StateMachines.{assert_payment_transition, can_transition_payment}

-- What the caller of a new payment may rely on.
pub record Created (format : Text → Text → Text) (now window : ℕ) (order : Order)
    (method : PaymentMethod) (before : List PaymentIntent) (intent : PaymentIntent)
    (after : List PaymentIntent) : Type 0 where
  pub unpaid : OrderStatus.is_paid order.status ≡ false
  pub enabled : (not method.is_enabled || not method.provider_enabled) ≡ false
  pub awaits : intent.status ≡ PaymentStatus.awaiting_payment
  pub quoted :
      quote_expected_amount order.total method.quote_rate method.asset_decimals
      ≡ ok intent.expected_amount
  pub units :
      base_units intent.expected_amount method.asset_decimals ≡ ok intent.expected_amount_units
  pub not_below : below_minimum intent.expected_amount method.min_amount ≡ false
  pub not_above : above_maximum intent.expected_amount method.max_amount ≡ false
  pub expects : expectation intent ≡ record {
    provider = method.provider;
    network = method.network;
    asset = method.asset;
    asset_decimals = method.asset_decimals;
    expected_amount = intent.expected_amount;
    expected_amount_units = intent.expected_amount_units;
    destination = or_empty method.receiving_address;
    destination_normalized = normalize_address method.receiving_address method.network;
    token_contract = method.token_contract;
    memo = memo_of format order method;
    required_confirmations = pos method.required_confirmations;
    created_at = now;
    expires_at = now + seconds window;
  }
  pub others : List PaymentIntent
  pub cancelled : cancel_active order.id before ≡ ok others
  pub fresh : any (λ i. i.reference == order.reference) others ≡ false
  pub added : after ≡ intent ∷ others
  pub own : (intent.order_id ≡ order.id) × (intent.reference ≡ order.reference)

check_method-ok :
    (order : Order) (method : PaymentMethod)
    → check_method order method ≡ ok tt
    → (OrderStatus.is_paid order.status ≡ false)
      × ((not method.is_enabled || not method.provider_enabled) ≡ false)
unfolding check_method
check_method-ok order method h =
    let paid = raise_if (OrderStatus.is_paid order.status) conflict in
    let disabled = raise_if (not method.is_enabled || not method.provider_enabled) configuration in
    let nowhere = raise_if (is_empty (or_empty method.receiving_address)) configuration in
    let (_, e, _) = >>=-eq-ok (paid >> disabled >> nowhere) _ h in
    let (_, e', _) = >>=-eq-ok (paid >> disabled) _ e in
    let (_, p, d) = >>=-eq-ok paid _ e' in
    (
      raise_if-eq-ok (OrderStatus.is_paid order.status) conflict p,
      raise_if-eq-ok (not method.is_enabled || not method.provider_enabled) configuration d,
    )

check_limits-ok :
    (amount : Decimal) (method : PaymentMethod)
    → check_limits amount method ≡ ok tt
    → (below_minimum amount method.min_amount ≡ false)
      × (above_maximum amount method.max_amount ≡ false)
unfolding check_limits
check_limits-ok amount method h =
    let (_, low, high) =
      >>=-eq-ok (raise_if (below_minimum amount method.min_amount) validation) _ h in
    (
      raise_if-eq-ok (below_minimum amount method.min_amount) validation low,
      raise_if-eq-ok (above_maximum amount method.max_amount) validation high,
    )

insert_intent-fresh :
    (intent : PaymentIntent) (intents rows : List PaymentIntent)
    → insert_intent intent intents ≡ ok rows
    → any (λ i. i.reference == intent.reference) intents ≡ false
unfolding insert_intent
insert_intent-fresh intent intents rows h =
    let taken = any (λ i. i.reference == intent.reference) intents in
    let free = leb_ℤ (quantize half_up intent.expected_amount money_scale) (pos 0) in
    let (_, e, _) = >>=-eq-ok (raise_if (taken || free) integrity_error) _ h in
    left taken free (raise_if-eq-ok (taken || free) integrity_error e)
  where
    left : (a b : Bool) → (a || b) ≡ false → a ≡ false
    left false b g = refl
    left true b g = g

pub new_intent-moves :
    (format : Text → Text → Text) (row now window : ℕ) (order : Order) (method : PaymentMethod)
    (amount : Decimal) (units : ℤ)
    → move PaymentStatus.awaiting_payment
        (new_intent format row now window order method amount units)
      ≡ ok (record (new_intent format row now window order method amount units) {
        status = PaymentStatus.awaiting_payment;
      })
unfolding move assert_payment_transition can_transition_payment PaymentStatus.transitions
new_intent-moves format row now window order method amount units = refl

-- A payment that was created is of an unpaid order and an enabled method; it awaits its payment, asks for the quote of the
-- order's total, which lies within the limits of the method, in base units and as an amount, and expects what the method and
-- the clock of the call say: network, asset, destination, contract, memo, confirmations and window. No other payment of the
-- table had the reference, and the latest open payment of the order was cancelled before.
pub create_intent-Created :
    (format : Text → Text → Text) (row now default : ℕ) (order : Order) (method : PaymentMethod)
    (window : Option ℕ) (before after : List PaymentIntent) (intent : PaymentIntent)
    → create_intent format row now default order method window before ≡ ok (intent, after)
    → Created format now (window_of window method default) order method before intent after
unfolding create_intent expectation
create_intent-Created format row now default order method window before after intent h =
    let (_, c, h₁) = >>=-eq-ok (check_method order method) _ h in
    let (amount, q, h₂) =
      >>=-eq-ok (quote_expected_amount order.total method.quote_rate method.asset_decimals) _ h₁ in
    let (_, l, h₃) = >>=-eq-ok (check_limits amount method) _ h₂ in
    let (others, e, h₄) = >>=-eq-ok (cancel_active order.id before) _ h₃ in
    let (units, u, h₅) = >>=-eq-ok (base_units amount method.asset_decimals) _ h₄ in
    let frame = window_of window method default in
    let made = new_intent format row now frame order method amount units in
    let (rows, i, h₆) = >>=-eq-ok (insert_intent made others) _ h₅ in
    let h₇ = rw (new_intent-moves format row now frame order method amount units) at h₆ in
    subst (λ x. Created format now frame order method before x.0 x.1) (ok-injective h₇)
      (record {
        unpaid = (check_method-ok order method c).0;
        enabled = (check_method-ok order method c).1;
        awaits = refl;
        quoted = q;
        units = u;
        not_below = (check_limits-ok amount method l).0;
        not_above = (check_limits-ok amount method l).1;
        expects = refl;
        others = others;
        cancelled = e;
        fresh = insert_intent-fresh made others rows i;
        added = refl;
        own = (refl, refl);
      })
