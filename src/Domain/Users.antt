-- ===== src/Domain/Users.antt =====
-- `User` of app/db/models/user.py, and `get` and `record_purchase` of app/db/repositories/users.py. Amounts are
-- in units of 10^-8.
use professional_bot.Prelude.{
  ℕ, suc, List, [], ◌∷◌, Option, none, some, ◌==◌, nat_eq, if◌then◌else◌,
}
use professional_bot.Prelude.Int.{ℤ, ◌+ℤ◌}
use professional_bot.Prelude.Text.{Text}

pub record User : Type 0 where
  pub id : ℕ
  pub orders_count : ℕ
  pub completed_orders_count : ℕ
  pub total_spent : ℤ
  pub referral_code : Text
  pub referred_by_id : Option ℕ
  pub referral_balance : ℤ

unfoldable pub find_user : ℕ → List User → Option User
find_user i [] = none
find_user i (u ∷ us) = let rest = find_user i us in if u.id == i then some u else rest

-- A write to the row of a user.
unfoldable pub on_user : ℕ → (User → User) → List User → List User
on_user i f [] = []
on_user i f (u ∷ us) = (if u.id == i then f u else u) ∷ on_user i f us

abbrev pub record_purchase : ℤ → User → User
record_purchase amount user = record user {
  completed_orders_count = suc user.completed_orders_count;
  total_spent = user.total_spent +ℤ amount;
}
