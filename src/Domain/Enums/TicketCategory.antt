-- ===== src/Domain/Enums/TicketCategory.antt =====
-- `TicketCategory` of app/domain/enums.py.
use professional_bot.Prelude.{ℕ, ◌≡◌, arith, Eq, code_eq}

pub data TicketCategory : Type 0 where
  payment order product technical other : TicketCategory

abbrev pub code : TicketCategory → ℕ
code payment = 0
code order = 1
code product = 2
code technical = 3
code other = 4

pub code-injective : (s t : TicketCategory) → code s ≡ code t → s ≡ t
code-injective s t h = ground arith

instance abbrev pub ticket_category_eq : Eq TicketCategory
ticket_category_eq = code_eq code code-injective
