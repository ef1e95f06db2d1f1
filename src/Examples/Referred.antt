-- ===== src/Examples/Referred.antt =====
-- A referred user's completed order, which earns a reward of 5 per cent.
use professional_bot.Prelude.{◌≡◌, refl, [], ◌∷◌, none, some}
use professional_bot.Prelude.Int.{pos, neg, ◌+ℤ◌, ◌*ℤ◌}
use professional_bot.Prelude.Text.{codes}
use professional_bot.Core.Money.{Decimal, quantize, half_up}
use professional_bot.Db.Ledger.{record_entry, has_key}
use professional_bot.Domain.Orders.Lifecycle.{Order}
use professional_bot.Domain.Users.{User, on_user}
use professional_bot.Domain.Referrals.{
  Referral, Program, get_for_user, new_referral, reward_of, set_referral, rewarded_referral,
  reward_entry, qualify, qualify_order,
}
use professional_bot.Domain.Referrals.Rewards.{qualify_order_again}
use professional_bot.Examples.Placed.{user, placed}

abbrev referrer : User
referrer = record user { id = 2; referral_code = codes "ANN"; referred_by_id = none }

abbrev waiting : Referral
waiting = new_referral 1 2 9

abbrev program : Program
program = record { referrals = waiting ∷ []; users = referrer ∷ user ∷ []; ledger = [] }

abbrev five : Decimal
five = record { coef = pos 5; scale = 0 }

abbrev rewarded : Referral
rewarded = rewarded_referral 50 placed (pos 45000000) waiting

abbrev paid_out : Program
paid_out = record {
  referrals = rewarded ∷ [];
  users = record referrer { referral_balance = pos 45000000 } ∷ user ∷ [];
  ledger = reward_entry placed (pos 45000000) waiting ∷ [];
}

qualifies : qualify_order 50 five placed program ≡ (some rewarded, paid_out)
unfolding qualify_order get_for_user qualify reward_of quantize half_up ◌*ℤ◌ ◌+ℤ◌ neg set_referral
    on_user record_entry has_key
qualifies = refl

abbrev another : Order
another = record placed { id = 8; total = pos 100000000000 }

qualify_order_again_example : qualify_order 60 five another paid_out ≡ (none, paid_out)
qualify_order_again_example =
    qualify_order_again 50 five placed program rewarded paid_out 60 five another qualifies refl
