-- ===== src/Examples.antt =====
-- Concrete inputs on which the theorems' hypotheses hold, and small runs of the definitions.
mod Payments
mod Orders
mod Service
mod Passes
mod Discounts
mod Stocked
mod Closing
mod Sold
mod Placed
mod Referred
mod Delivered
mod Admitted
mod Notified
mod Supported
mod Charged
