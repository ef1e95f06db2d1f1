-- ===== src/Domain/Payments/Creation.antt =====
-- `create_intent` of app/domain/payments/service.py, with `active_for_order` of app/db/repositories/payments.py. Amounts of
-- the order and the method are in units of 10^-8, and the window is in seconds. `format` is `str.format` on a template, with
-- the reference; a template that names another field, on which the call raises, is not covered. The copy of the configuration in `verification_config`, which no check reads, is left out.
pub mod Created
pub mod Again
use professional_bot.Prelude.{
  ℕ, zero, suc, ◌+◌, Bool, true, false, not, ◌&&◌, ◌||◌, List, [], ◌∷◌, Option, none, some, Result,
  ok, err, raise_if, ◌>>=◌, ◌>>◌, ◌==◌, nat_eq, if◌then◌else◌, seconds, conflict, configuration,
  validation, any, integrity_error,
}
use professional_bot.Prelude.Int.{ℤ, pos, leb_ℤ}
use professional_bot.Prelude.Text.{Text, text_eq, codes, is_empty, or_empty, text_or}
use professional_bot.Core.Money.{Decimal, ltb_decimal, money_scale, base_units, quantize, half_up}
use professional_bot.Domain.Enums.NetworkCode.{NetworkCode}
use professional_bot.Domain.Enums.OrderStatus
use professional_bot.Domain.Enums.PaymentStatus
use professional_bot.Domain.Enums.PaymentStatus.{PaymentStatus}
use professional_bot.Domain.Enums.ProviderCode.{ProviderCode}
use professional_bot.Domain.Orders.Lifecycle.{Order}
use professional_bot.Domain.Payments.Fingerprint.{normalize_address}
use professional_bot.Domain.Payments.Quote.{quote_expected_amount}
use professional_bot.Domain.Payments.Service.{PaymentIntent}
use professional_bot.Domain.StateMachines.{assert_payment_transition}

-- The columns of a payment method, and of its provider, that the service reads.
pub record PaymentMethod : Type 0 where
  pub id : ℕ
  pub is_enabled : Bool
  pub provider_enabled : Bool
  pub provider : ProviderCode
  pub network : NetworkCode
  pub asset : Text
  pub asset_decimals : ℕ
  pub receiving_address : Option Text
  pub token_contract : Option Text
  pub requires_memo : Bool
  pub memo_template : Option Text
  pub required_confirmations : ℕ
  pub payment_window_seconds : ℕ
  pub min_amount : Option ℤ
  pub max_amount : Option ℤ
  pub quote_rate : ℤ

-- `_transition`, of one row.
unfoldable pub move : PaymentStatus → PaymentIntent → Result PaymentIntent
move target intent = do
  assert_payment_transition intent.status target
  ok (record intent { status = target })

abbrev pub is_active : ℕ → PaymentIntent → Bool
is_active order_id intent = intent.order_id == order_id && PaymentStatus.is_open intent.status

-- `active_for_order`, and its transition to CANCELLED: the rows are the latest first.
unfoldable pub cancel_active : ℕ → List PaymentIntent → Result (List PaymentIntent)
cancel_active order_id [] = ok []
cancel_active order_id (i ∷ intents) =
    let rest = cancel_active order_id intents in
    if is_active order_id i
    then (move PaymentStatus.cancelled i >>= λ c. ok (c ∷ intents))
    else (rest >>= λ others. ok (i ∷ others))

-- `a or b`, of numbers
abbrev pub number_or : ℕ → ℕ → ℕ
number_or zero b = b
number_or (suc a) b = suc a

abbrev pub number_of : Option ℕ → ℕ
number_of none = 0
number_of (some n) = n

unfoldable pub window_of : Option ℕ → PaymentMethod → ℕ → ℕ
window_of window_seconds method default_window_seconds =
    number_or (number_of window_seconds)
      (number_or method.payment_window_seconds default_window_seconds)

abbrev pub money : ℤ → Decimal
money n = record { coef = n; scale = money_scale }

abbrev pub below_minimum : Decimal → Option ℤ → Bool
below_minimum amount none = false
below_minimum amount (some least) = ltb_decimal amount (money least)

abbrev pub above_maximum : Decimal → Option ℤ → Bool
above_maximum amount none = false
above_maximum amount (some most) = ltb_decimal (money most) amount

-- The checks before the quote.
unfoldable pub check_method : Order → PaymentMethod → Result (Unit {0})
check_method order method =
    raise_if (OrderStatus.is_paid order.status) conflict
    >> raise_if (not method.is_enabled || not method.provider_enabled) configuration
    >> raise_if (is_empty (or_empty method.receiving_address)) configuration
    >> raise_if (leb_ℤ method.quote_rate (pos 0)) configuration

unfoldable pub check_limits : Decimal → PaymentMethod → Result (Unit {0})
check_limits amount method =
    raise_if (below_minimum amount method.min_amount) validation
    >> raise_if (above_maximum amount method.max_amount) validation

-- `BaseRepository.add`: the reference is UNIQUE, and the amount, which the column rounds, is checked to be positive.
unfoldable pub insert_intent : PaymentIntent → List PaymentIntent → Result (List PaymentIntent)
insert_intent intent intents =
    raise_if
      (any (λ i. i.reference == intent.reference) intents
        || leb_ℤ (quantize half_up intent.expected_amount money_scale) (pos 0))
      integrity_error
    >> ok (intent ∷ intents)

module _ (format : Text → Text → Text) where
  abbrev pub memo_of : Order → PaymentMethod → Option Text
  memo_of order method =
      if method.requires_memo
      then some
          (format (text_or (or_empty method.memo_template) (codes "{reference}")) order.reference)
      else none

  abbrev pub new_intent : ℕ → ℕ → ℕ → Order → PaymentMethod → Decimal → ℤ → PaymentIntent
  new_intent row now window order method amount units = record {
    id = row;
    reference = order.reference;
    order_id = order.id;
    payment_method_id = method.id;
    order_amount = order.total;
    order_currency = order.currency;
    quote_rate = method.quote_rate;
    provider_code = method.provider;
    network = method.network;
    status = PaymentStatus.created;
    expected_amount = amount;
    expected_amount_units = units;
    asset = method.asset;
    asset_decimals = method.asset_decimals;
    destination = or_empty method.receiving_address;
    destination_normalized = normalize_address method.receiving_address method.network;
    token_contract = method.token_contract;
    memo = memo_of order method;
    required_confirmations = pos method.required_confirmations;
    created_at = now;
    expires_at = now + seconds window;
    submitted_at = none;
    detected_at = none;
    verified_at = none;
    failed_at = none;
    next_poll_at = none;
    received_amount = none;
    received_amount_units = none;
    confirmations = pos 0;
    verification_attempts = 0;
    last_outcome = none;
    failure_reason = none;
    review_reason = none;
  }

  -- `create_intent`; `row` is the new id, `default_window_seconds` that of the settings.
  unfoldable pub create_intent :
      ℕ
      → ℕ
      → ℕ
      → Order
      → PaymentMethod
      → Option ℕ
      → List PaymentIntent
      → Result (PaymentIntent × List PaymentIntent)
  create_intent row now default_window_seconds order method window_seconds intents = do
    check_method order method
    amount ← quote_expected_amount order.total method.quote_rate method.asset_decimals
    check_limits amount method
    others ← cancel_active order.id intents
    units ← base_units amount method.asset_decimals
    let window = window_of window_seconds method default_window_seconds
    let intent = new_intent row now window order method amount units
    rows ← insert_intent intent others
    moved ← move PaymentStatus.awaiting_payment intent
    ok (moved, moved ∷ others)
