-- ===== src/Domain/Enums/RefundStatus.antt =====
-- `RefundStatus` of app/domain/enums.py.
use professional_bot.Prelude.{ℕ, ◌≡◌, arith, Eq, code_eq}

pub data RefundStatus : Type 0 where
  requested approved processing completed rejected failed : RefundStatus

abbrev pub code : RefundStatus → ℕ
code requested = 0
code approved = 1
code processing = 2
code completed = 3
code rejected = 4
code failed = 5

pub code-injective : (s t : RefundStatus) → code s ≡ code t → s ≡ t
code-injective s t h = ground arith

instance abbrev pub refund_status_eq : Eq RefundStatus
refund_status_eq = code_eq code code-injective
