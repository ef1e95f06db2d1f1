-- ===== src/Domain/Enums/ReferralStatus.antt =====
-- `ReferralStatus` of app/domain/enums.py.
use professional_bot.Prelude.{ℕ, ◌≡◌, arith, Eq, code_eq}

pub data ReferralStatus : Type 0 where
  pending qualified rewarded rejected : ReferralStatus

abbrev pub code : ReferralStatus → ℕ
code pending = 0
code qualified = 1
code rewarded = 2
code rejected = 3

pub code-injective : (s t : ReferralStatus) → code s ≡ code t → s ≡ t
code-injective s t h = ground arith

instance abbrev pub referral_status_eq : Eq ReferralStatus
referral_status_eq = code_eq code code-injective
