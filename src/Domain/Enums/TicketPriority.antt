-- ===== src/Domain/Enums/TicketPriority.antt =====
-- `TicketPriority` of app/domain/enums.py.
use professional_bot.Prelude.{ℕ, ◌≡◌, arith, Eq, code_eq}

pub data TicketPriority : Type 0 where
  low normal high urgent : TicketPriority

abbrev pub code : TicketPriority → ℕ
code low = 0
code normal = 1
code high = 2
code urgent = 3

pub code-injective : (s t : TicketPriority) → code s ≡ code t → s ≡ t
code-injective s t h = ground arith

instance abbrev pub ticket_priority_eq : Eq TicketPriority
ticket_priority_eq = code_eq code code-injective
