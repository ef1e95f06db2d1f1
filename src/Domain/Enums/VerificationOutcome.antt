-- ===== src/Domain/Enums/VerificationOutcome.antt =====
-- `VerificationOutcome` of app/domain/enums.py.
use professional_bot.Prelude.{ℕ, ◌≡◌, Bool, true, false, arith, Eq, code_eq}

pub data VerificationOutcome : Type 0 where
  verified not_found pending_confirmation underpaid overpaid wrong_network : VerificationOutcome
  wrong_asset wrong_receiver duplicate failed_transaction outside_window : VerificationOutcome
  provider_error unsupported memo_mismatch : VerificationOutcome

abbrev pub code : VerificationOutcome → ℕ
code verified = 0
code not_found = 1
code pending_confirmation = 2
code underpaid = 3
code overpaid = 4
code wrong_network = 5
code wrong_asset = 6
code wrong_receiver = 7
code duplicate = 8
code failed_transaction = 9
code outside_window = 10
code provider_error = 11
code unsupported = 12
code memo_mismatch = 13

pub code-injective : (s t : VerificationOutcome) → code s ≡ code t → s ≡ t
code-injective s t h = ground arith

instance abbrev pub verification_outcome_eq : Eq VerificationOutcome
verification_outcome_eq = code_eq code code-injective

unfoldable pub is_success : VerificationOutcome → Bool
is_success verified = true
is_success _ = false

unfoldable pub is_retryable : VerificationOutcome → Bool
is_retryable not_found = true
is_retryable pending_confirmation = true
is_retryable provider_error = true
is_retryable _ = false

unfoldable pub needs_review : VerificationOutcome → Bool
needs_review underpaid = true
needs_review overpaid = true
needs_review wrong_network = true
needs_review wrong_asset = true
needs_review wrong_receiver = true
needs_review duplicate = true
needs_review outside_window = true
needs_review memo_mismatch = true
needs_review unsupported = true
needs_review _ = false
