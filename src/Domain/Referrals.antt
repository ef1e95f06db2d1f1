-- ===== src/Domain/Referrals.antt =====
-- `ReferralService` of app/domain/referrals/service.py with `ReferralRepository` of
-- app/db/repositories/users.py. Amounts are in units of 10^-8, and the quotient by 100 is exact, as in Python up to 28
-- digits. An attribution that loses a race at the UNIQUE constraint is left out.
pub mod Rewards
use professional_bot.Prelude.{
  ℕ, ◌+◌, Bool, true, false, not, ◌&&◌, ◌||◌, List, [], ◌∷◌, ◌++◌, Option, none, some, ◌==◌, nat_eq,
  if◌then◌else◌, is_some,
}
use professional_bot.Prelude.Int.{ℤ, pos, ◌+ℤ◌, ◌*ℤ◌, neg, leb_ℤ}
use professional_bot.Prelude.Text.{Text, text_eq, is_empty, strip, upper}
use professional_bot.Core.Money.{Decimal, quantize, half_up, money_scale}
use professional_bot.Db.Ledger.{Ledger, LedgerEntry, record_entry, referral}
use professional_bot.Domain.Enums.LedgerEntryType
use professional_bot.Domain.Enums.ReferralStatus
use professional_bot.Domain.Enums.ReferralStatus.{ReferralStatus, referral_status_eq}
use professional_bot.Domain.Orders.Lifecycle.{Order}
use professional_bot.Domain.Users.{User, on_user}

pub record Referral : Type 0 where
  pub id : ℕ
  pub referrer_id : ℕ
  pub referred_user_id : ℕ
  pub status : ReferralStatus
  pub qualifying_order_id : Option ℕ
  pub reward_amount : ℤ
  pub reward_currency : Text
  pub rewarded_at : Option ℕ

-- What the service reads and writes.
pub record Program : Type 0 where
  pub referrals : List Referral
  pub users : List User
  pub ledger : Ledger

unfoldable pub get_for_user : ℕ → List Referral → Option Referral
get_for_user i [] = none
get_for_user i (r ∷ rs) =
    let rest = get_for_user i rs in if r.referred_user_id == i then some r else rest

unfoldable pub get_by_referral_code : Text → List User → Option User
get_by_referral_code code [] = none
get_by_referral_code code (u ∷ us) =
    let rest = get_by_referral_code code us in if u.referral_code == code then some u else rest

abbrev pub new_referral : ℕ → ℕ → ℕ → Referral
new_referral row referrer_id referred_user_id = record {
  id = row;
  referrer_id = referrer_id;
  referred_user_id = referred_user_id;
  status = ReferralStatus.pending;
  qualifying_order_id = none;
  reward_amount = pos 0;
  reward_currency = [];
  rewarded_at = none;
}

abbrev pub refer : ℕ → User → User → Program → Option Referral × Program
refer row new_user referrer program = (
  some (new_referral row referrer.id new_user.id),
  record program {
    referrals = program.referrals ++ new_referral row referrer.id new_user.id ∷ [];
    users = on_user new_user.id (λ u. record u { referred_by_id = some referrer.id }) program.users;
  },
)

-- The checks on a referrer that was found; `new_user` is the row of the new user.
unfoldable pub attribute_to : ℕ → User → Option User → Program → Option Referral × Program
attribute_to row new_user none program = (none, program)
attribute_to row new_user (some referrer) program =
    if referrer.id == new_user.id
    then (none, program)
    else if is_some new_user.referred_by_id
    then (none, program)
    else if is_some (get_for_user new_user.id program.referrals)
    then (none, program)
    else refer row new_user referrer program

-- `attribute`; `row` is the new id.
unfoldable pub attribute : ℕ → User → Text → Program → Option Referral × Program
attribute row new_user referral_code program =
    let code = upper (strip referral_code) in
    if is_empty code
    then (none, program)
    else attribute_to row new_user (get_by_referral_code code program.users) program

-- `quantize_money(order.total * reward_percent / Decimal(100))`
unfoldable pub reward_of : ℤ → Decimal → ℤ
reward_of total percent =
    quantize half_up
      (record { coef = total *ℤ percent.coef; scale = money_scale + percent.scale + 2 }) money_scale

-- The row of a referral with its new values.
unfoldable pub set_referral : Referral → List Referral → List Referral
set_referral r [] = []
set_referral r (s ∷ rs) = (if s.id == r.id then r else s) ∷ set_referral r rs

abbrev pub rewarded_referral : ℕ → Order → ℤ → Referral → Referral
rewarded_referral now order reward r = record r {
  status = ReferralStatus.rewarded;
  qualifying_order_id = some order.id;
  reward_amount = reward;
  reward_currency = order.currency;
  rewarded_at = some now;
}

abbrev pub reward_entry : Order → ℤ → Referral → LedgerEntry
reward_entry order reward r = record {
  entry_type = LedgerEntryType.referral_reward;
  amount = record { coef = neg reward; scale = money_scale };
  dedupe_key = referral r.id;
  order_id = some order.id;
  payment_intent_id = none;
}

abbrev pub pay_out : ℕ → Order → ℤ → Referral → Program → Option Referral × Program
pay_out now order reward r program = (
  some (rewarded_referral now order reward r),
  record {
    referrals = set_referral (rewarded_referral now order reward r) program.referrals;
    users =
        on_user r.referrer_id (λ u. record u { referral_balance = u.referral_balance +ℤ reward })
          program.users;
    ledger = (record_entry (reward_entry order reward r) program.ledger).1;
  },
)

unfoldable pub qualify : ℕ → Decimal → Order → Option Referral → Program → Option Referral × Program
qualify now percent order none program = (none, program)
qualify now percent order (some r) program =
    let reward = reward_of order.total percent in
    if not (r.status == ReferralStatus.pending)
    then (none, program)
    else if leb_ℤ reward (pos 0)
    then (none, program)
    else pay_out now order reward r program

-- `qualify_order`
unfoldable pub qualify_order : ℕ → Decimal → Order → Program → Option Referral × Program
qualify_order now percent order program = elim order.user_id [
  | none ↦ (none, program)
  | some i ↦ qualify now percent order (get_for_user i program.referrals) program
]
