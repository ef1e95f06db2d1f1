-- ===== src/Examples/Charged.antt =====
-- A payment of 12.5 USDT for the order of Examples/Service, by a method with three USDT to the unit.
use professional_bot.Prelude.{
  ◌*◌, ◌^◌, ◌≡◌, refl, true, false, [], ◌∷◌, none, some, arith, ok, err, integrity_error,
}
use professional_bot.Prelude.Int.{pos, ◌*ℤ◌}
use professional_bot.Prelude.Text.{Text, codes, lower, strip, starts_with}
use professional_bot.Core.Money.{Decimal, base_units, quantize, round_up, half_up}
use professional_bot.Domain.Enums.NetworkCode
use professional_bot.Domain.Enums.OrderStatus
use professional_bot.Domain.Enums.PaymentStatus
use professional_bot.Domain.Enums.ProviderCode
use professional_bot.Domain.Payments.Fingerprint.{
  normalize_address, is_hex_network, normalize_by_network,
}
use professional_bot.Domain.Payments.Quote.{
  half_even, quotient_scale, divide, quote_expected_amount,
}
use professional_bot.Domain.Payments.Quote.Ceiling.{quote_expected_amount-round_up}
use professional_bot.Domain.Payments.Service.{PaymentIntent}
use professional_bot.Domain.Payments.Creation.{
  PaymentMethod, move, cancel_active, window_of, check_method, check_limits, new_intent,
  insert_intent, create_intent,
}
use professional_bot.Domain.Payments.Creation.Created.{Created, create_intent-Created}
use professional_bot.Domain.Payments.Creation.Again.{create_intent_again}
use professional_bot.Domain.StateMachines.{assert_payment_transition, can_transition_payment}
use professional_bot.Examples.Service.{order}

abbrev method : PaymentMethod
method = record {
  id = 2;
  is_enabled = true;
  provider_enabled = true;
  provider = ProviderCode.evm;
  network = NetworkCode.bep20;
  asset = codes "XYZ";
  asset_decimals = 6;
  receiving_address = some (codes "0xAB");
  token_contract = some (codes "0xC0");
  requires_memo = false;
  memo_template = none;
  required_confirmations = 12;
  payment_window_seconds = 1800;
  min_amount = some (pos 100000000);
  max_amount = none;
  quote_rate = pos 300000000;
}

abbrev stablecoin : PaymentMethod
stablecoin = record method { id = 3; asset = codes "USDT"; quote_rate = pos 100000000 }

abbrev by_hand : Text → Text → Text
by_hand template reference = reference

-- 12.5 / 3, rounded up in the sixth place.
abbrev asked : Decimal
asked = record { coef = pos 4166667; scale = 6 }

abbrev made : PaymentIntent
made = record (new_intent by_hand 4 100 1800 order method asked (pos 4166667)) {
  status = PaymentStatus.awaiting_payment;
}

quotes : quote_expected_amount (pos 1250000000) (pos 300000000) 6 ≡ ok asked
unfolding quote_expected_amount divide quotient_scale half_even quantize round_up
quotes = refl

quote_expected_amount-round_up_example :
    quote_expected_amount (pos 1250000000) (pos 300000000) 6
    ≡ ok (record { coef = pos (round_up 300000000 (1250000000 * 10 ^ 6)); scale = 6 })
quote_expected_amount-round_up_example =
    quote_expected_amount-round_up 1250000000 300000000 6 (omega arith) (omega arith) (omega arith)
      (omega arith)

creates : create_intent by_hand 4 100 900 order method none [] ≡ ok (made, made ∷ [])
unfolding create_intent check_method check_limits quote_expected_amount divide quotient_scale
    half_even quantize round_up half_up base_units cancel_active insert_intent move
    assert_payment_transition can_transition_payment PaymentStatus.transitions window_of
    normalize_address is_hex_network normalize_by_network strip lower starts_with ◌*ℤ◌
    OrderStatus.is_paid
creates = refl

create_intent-Created_example :
    Created by_hand 100 (window_of none method 900) order method [] made (made ∷ [])
create_intent-Created_example =
    create_intent-Created by_hand 4 100 900 order method none [] (made ∷ []) made creates

abbrev in_full : Decimal
in_full = record { coef = pos 12500000; scale = 6 }

payable : check_method order stablecoin ≡ ok tt
unfolding check_method OrderStatus.is_paid
payable = refl

full_quote : quote_expected_amount (pos 1250000000) (pos 100000000) 6 ≡ ok in_full
unfolding quote_expected_amount divide quotient_scale half_even quantize round_up
full_quote = refl

allowed : check_limits in_full stablecoin ≡ ok tt
unfolding check_limits ◌*ℤ◌
allowed = refl

whole : base_units in_full 6 ≡ ok (pos 12500000)
unfolding base_units
whole = refl

create_intent_again_example :
    create_intent by_hand 5 200 900 order stablecoin none (made ∷ []) ≡ err integrity_error
create_intent_again_example =
    create_intent_again by_hand 4 5 100 200 900 order method stablecoin none none [] (made ∷ [])
      made in_full (pos 12500000) creates payable full_quote allowed whole
