-- ===== src/Domain/Enums/TicketStatus.antt =====
-- `TicketStatus` of app/domain/enums.py; `opened` is OPEN.
use professional_bot.Prelude.{ℕ, ◌≡◌, arith, Eq, code_eq}

pub data TicketStatus : Type 0 where
  opened assigned waiting_user resolved closed : TicketStatus

abbrev pub code : TicketStatus → ℕ
code opened = 0
code assigned = 1
code waiting_user = 2
code resolved = 3
code closed = 4

pub code-injective : (s t : TicketStatus) → code s ≡ code t → s ≡ t
code-injective s t h = ground arith

instance abbrev pub ticket_status_eq : Eq TicketStatus
ticket_status_eq = code_eq code code-injective
