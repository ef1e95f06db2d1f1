-- ===== src/Db/Consumptions.antt =====
-- `PaymentConsumptionRepository` of app/db/repositories/payments.py: a transaction is claimed by the
-- fingerprint, which is UNIQUE. Provider, network and asset of the row are left out.
pub mod Once
use professional_bot.Prelude.{
  ℕ, Bool, true, false, List, [], ◌∷◌, ◌++◌, Option, none, some, ◌==◌, nat_eq, if◌then◌else◌,
  filter_by,
}
use professional_bot.Prelude.Int.{ℤ}
use professional_bot.Prelude.Text.{Text, text_eq}

pub record Consumption : Type 0 where
  pub fingerprint : Text
  pub payment_intent_id : ℕ
  pub order_id : ℕ
  pub external_id : Text
  pub amount_units : ℤ
  pub consumed_at : ℕ

unfoldable pub get_by_fingerprint : Text → List Consumption → Option Consumption
get_by_fingerprint f [] = none
get_by_fingerprint f (c ∷ cs) =
    let rest = get_by_fingerprint f cs in if c.fingerprint == f then some c else rest

-- What is returned, and the table after it, when `existing` holds the fingerprint: the UNIQUE
-- constraint refuses the insert, the savepoint is rolled back, and the row that is there is read.
unfoldable pub insert_unless :
    Option Consumption
    → Consumption
    → List Consumption
    → (Option Consumption × Bool) × List Consumption
insert_unless none c cs = ((some c, true), cs ++ c ∷ [])
insert_unless (some existing) c cs = ((some existing, false), cs)

unfoldable pub claim :
    Consumption → List Consumption → (Option Consumption × Bool) × List Consumption
unfolding insert_unless
claim c cs = insert_unless (get_by_fingerprint c.fingerprint cs) c cs

unfoldable pub for_order : ℕ → List Consumption → List Consumption
for_order order_id cs = filter_by (λ c. c.order_id == order_id) cs
