-- ===== src/Lib.antt =====
-- Verification of the commerce bot: a Telegram shop whose orders are paid in cryptocurrency. A payment
-- intent freezes what is expected; exchanges and chains report transactions; the engine decides which of
-- them may be credited; the payment service claims the transaction, moves the payment and its order and
-- journals the money; refunds give it back. The stock that an order holds is allocated and delivered once
-- the payment is verified; resellers order through an API with keys, and are told of events by webhooks.
--
-- Files, with the code that they model:
-- - Core/Money: app/core/money.py. A decimal is an integer coefficient and a scale. Rounding, base units
--   and the comparison of amounts.
-- - Domain/Enums: the members, properties and tables of app/domain/enums.py.
-- - Domain/StateMachines: app/domain/state_machines.py. The guards (assert_order_transition,
--   assert_payment_transition) and payment_path, a breadth-first search. The order in which Python iterates
--   a frozenset is a parameter `iter`. The `while` loop runs on fuel: 14 rounds, one for each of the twelve
--   statuses, one that finds the queue empty, and one to spare.
-- - Domain/Payments/Fingerprint: app/domain/payments/fingerprint.py. SHA-256 is a parameter. Texts are
--   lists of character codes (Prelude/Text), with the case mapping and whitespace of ASCII.
-- - Domain/Payments/Types, Domain/Payments/Verification: app/domain/payments/types.py and verification.py.
--   Each check of verify_transaction is a function, in the order of the code.
-- - Domain/Payments/Service: app/domain/payments/service.py. A Session holds the payment, its order, its
--   latest attempt and the shared tables; an operation takes a Session to a Result, where a raise is `err`
--   and stands for the rollback of the unit of work. Outcomes, Record and Verify are the parts of verify;
--   Manual holds the operator's decisions and expire_due. The adapter's answer, the wording of a decision,
--   SHA-256 and the iteration order are arguments; the clock is read once in a call.
-- - Domain/Payments/Creation: create_intent of app/domain/payments/service.py.
-- - Domain/Payments/Quote: quote_expected_amount of app/domain/payments/verification.py, with the division
--   of Python's decimals in 28 digits. The scale of the quotient is looked for on fuel: 57 rounds, enough
--   for the 30 digits of a column.
-- - Domain/Orders/Lifecycle, Domain/Orders/Closing, Domain/Orders/Refunds: `transition`, `cancel` and
--   `expire` of app/domain/orders/service.py, and app/domain/orders/refunds.py.
-- - Domain/Coupons: app/domain/coupons/service.py and CouponRepository of app/db/repositories/orders.py.
-- - Domain/Inventory: app/domain/inventory/service.py, with app/db/repositories/catalog.py. Allocation,
--   Restocking and Availability are its further operations, Freed and Releases hold what a release leaves,
--   and Sales what is true of sequences of them.
-- - Domain/Catalog, Domain/Users: the rows of products and users that the services read.
-- - Domain/Orders/Creation: quotes and new orders of app/domain/orders/service.py.
-- - Domain/Orders/Delivery: app/domain/orders/delivery.py and the pass of
--   app/workers/delivery/dispatcher.py. Finishing holds failures and finalisation. The encryption of
--   payloads is a SecretBox: two functions and the laws that the code relies on.
-- - Domain/Referrals: app/domain/referrals/service.py.
-- - Domain/Resellers, Api/Auth: accounts and API keys of app/domain/resellers/service.py, and the checks of
--   a request in app/api/dependencies/auth.py. Keys are in Domain/Resellers/Keys. Api/Auth/Sequences lists
--   the operations as steps.
-- - Core/Security: the API keys of app/core/security.py, with the expression that they match.
-- - Domain/Webhooks: the webhooks of app/domain/resellers/service.py and, in Worker, the attempts of
--   app/workers/webhooks/dispatcher.py. A run of passes is a relation, so it needs no fuel; a pass that raises
--   is rolled back. The secret box and the call are arguments that may raise.
-- - Domain/Support: app/domain/support/service.py; its references are found by the loop of
--   Domain/Orders/Creation.
-- - Admin/Permissions: app/admin/permissions/rbac.py.
-- - Db/Ledger, Db/Consumptions, Db/Reconciliation, Db/Transactions: the repositories of
--   app/db/repositories/orders.py and payments.py that the services call. A UNIQUE constraint is a lookup
--   before the insert.
-- - Prelude: shared names, Boolean tests, integers over the native numbers, texts, results.
-- - Examples: concrete inputs for the theorems.
--
-- The Domain files for payments and orders stand on Core and Db, the service on the engine, the state
-- machines and the repositories, and the refunds on the ledger and the order's transition; closing an order
-- uses inventory and coupons, and a delivery allocates from the inventory, finalises its order and pays the
-- referral. The child modules of a component hold its proofs, named for what they prove.
--
-- Not modelled: payment addresses, the other workers, rate limits and idempotency of requests, which are the
-- repository's own logic; the safety of a URL, which asks the name service; the adapters of exchanges and
-- nodes, the handlers of the bot and the admin panel, the routes of the HTTP API, translations,
-- configuration, logging and migrations, which are input and output around them. Races are not interleaved:
-- an insert that loses at a UNIQUE constraint is modelled as finding the row that is there, where the code
-- may roll the session back. Identifiers are numbers, times are microseconds.
pub mod Prelude
pub mod Core
pub mod Db
pub mod Domain
pub mod Examples
pub mod Admin
pub mod Api
