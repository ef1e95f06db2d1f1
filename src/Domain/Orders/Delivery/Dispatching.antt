-- ===== src/Domain/Orders/Delivery/Dispatching.antt =====
-- The delivery worker of app/workers/delivery/dispatcher.py, and `due` of app/db/repositories/orders.py.
-- Notifications and webhooks, which run after the transaction, and the lock are left out.
use professional_bot.Prelude.{
  ℕ, Bool, true, ◌&&◌, ◌||◌, List, [], Option, none, some, ◌==◌, nat_eq, if◌then◌else◌, leb, take,
  filter_by, Error, integrity_error, Result, ok, err, ◌>>=◌,
}
use professional_bot.Prelude.Text.{Text}
use professional_bot.Core.Money.{Decimal}
use professional_bot.Domain.Enums.DeliveryStatus
use professional_bot.Domain.Enums.DeliveryStatus.{delivery_status_eq}
use professional_bot.Domain.Enums.OrderStatus
use professional_bot.Domain.Enums.OrderStatus.{order_status_eq}
use professional_bot.Domain.Orders.Lifecycle.{Order}
use professional_bot.Domain.Orders.Delivery.{
  SecretBox, Delivery, DeliveredPayload, Depot, prepare, set_delivery, fulfil,
}
use professional_bot.Domain.Orders.Delivery.Finishing.{record_failure, finalise_order}
use professional_bot.Domain.Referrals.{Referral, Program, qualify_order}

-- `next_attempt_at IS NULL OR next_attempt_at <= now`
abbrev pub is_ripe : ℕ → Option ℕ → Bool
is_ripe now none = true
is_ripe now (some t) = leb t now

abbrev pub is_due : ℕ → Delivery → Bool
is_due now d =
    (d.status == DeliveryStatus.pending || d.status == DeliveryStatus.failed)
    && is_ripe now d.next_attempt_at

unfoldable pub due : ℕ → ℕ → List Delivery → List Delivery
due now limit ds = take limit (filter_by (is_due now) ds)

-- `enqueue_delivery`: how many rows an order has.
unfoldable pub enqueue_delivery : ℕ → ℕ → Depot → Result (List Delivery × Depot)
enqueue_delivery row now depot = elim depot.order [
  | none ↦ ok ([], depot)
  | some order ↦ prepare row now order depot
]

-- The tables of the worker's session.
pub record Night : Type 0 where
  pub depot : Depot
  pub referrals : List Referral

abbrev pub store : Delivery → Depot → Depot
store d depot = record depot { deliveries = set_delivery d depot.deliveries }

abbrev pub reward_on : ℕ → Decimal → Order → Night → Night
reward_on now percent order night =
    let program : Program = record {
      referrals = night.referrals;
      users = night.depot.desk.users;
      ledger = night.depot.desk.ledger;
    } in
    let after = (qualify_order now percent order program).1 in
    let desk = record night.depot.desk { users = after.users; ledger = after.ledger } in
    record { depot = record night.depot { desk = desk }; referrals = after.referrals }

-- A completed order earns the referral reward.
abbrev pub reward : ℕ → Decimal → Option Order → Night → Night
reward now percent none night = night
reward now percent (some order) night =
    if order.status == OrderStatus.completed then reward_on now percent order night else night

-- The rest of the pass, once the payload was handed over.
abbrev pub close_out : ℕ → Decimal → Option Order → Night → Result (ℕ × Night)
close_out now percent none night = ok (1, night)
close_out now percent (some order) night =
    finalise_order now order night.depot
    >>= (λ done. ok (1, reward now percent done.1.order (record night { depot = done.1 })))

-- What follows an attempt. After an integrity error the session serves no further statement, and the
-- pass ends with an exception.
abbrev pub after_attempt :
    ℕ
    → ℕ
    → Decimal
    → (Error → Text)
    → (Delivery × Depot) × Result DeliveredPayload
    → List Referral
    → Result (ℕ × Night)
after_attempt now max_attempts percent message (state, err integrity_error) referrals =
    err integrity_error
after_attempt now max_attempts percent message (state, err e) referrals =
    record_failure now max_attempts (message e) state.0 state.1
    >>= (λ done. ok (0, record { depot = store done.0 done.1; referrals = referrals }))
after_attempt now max_attempts percent message (state, ok payload) referrals =
    close_out now percent state.1.order
      (record { depot = store state.0 state.1; referrals = referrals })

-- `_deliver_one`, for the row that was found: how many were delivered.
unfoldable pub deliver_one :
    SecretBox → ℕ → ℕ → ℕ → Decimal → (Error → Text) → Delivery → Night → Result (ℕ × Night)
deliver_one box row now max_attempts percent message delivery night =
    if delivery.status == DeliveryStatus.completed
    then ok (0, night)
    else after_attempt now max_attempts percent message (fulfil box row now delivery night.depot)
        night.referrals
