-- ===== src/Domain/Enums/PaymentStatus.antt =====
-- `PaymentStatus` of app/domain/enums.py, its properties, and `PAYMENT_TRANSITIONS`.
use professional_bot.Prelude.{ℕ, ◌≡◌, arith, Bool, true, false, List, [], ◌∷◌, Eq, code_eq}

pub data PaymentStatus : Type 0 where
  created awaiting_payment submitted detecting detected verifying pending_confirmation verified
        under_review failed expired cancelled :
      PaymentStatus

abbrev pub code : PaymentStatus → ℕ
code created = 0
code awaiting_payment = 1
code submitted = 2
code detecting = 3
code detected = 4
code verifying = 5
code pending_confirmation = 6
code verified = 7
code under_review = 8
code failed = 9
code expired = 10
code cancelled = 11

pub code-injective : (s t : PaymentStatus) → code s ≡ code t → s ≡ t
code-injective s t h = ground arith

instance abbrev pub payment_status_eq : Eq PaymentStatus
payment_status_eq = code_eq code code-injective

unfoldable pub is_terminal : PaymentStatus → Bool
is_terminal created = false
is_terminal awaiting_payment = false
is_terminal submitted = false
is_terminal detecting = false
is_terminal detected = false
is_terminal verifying = false
is_terminal pending_confirmation = false
is_terminal verified = true
is_terminal under_review = false
is_terminal failed = true
is_terminal expired = true
is_terminal cancelled = true

unfoldable pub is_open : PaymentStatus → Bool
is_open created = true
is_open awaiting_payment = true
is_open submitted = true
is_open detecting = true
is_open detected = true
is_open verifying = true
is_open pending_confirmation = true
is_open verified = false
is_open under_review = false
is_open failed = false
is_open expired = false
is_open cancelled = false

-- `PAYMENT_TRANSITIONS`, the sets as lists.
unfoldable pub transitions : PaymentStatus → List PaymentStatus
transitions created = awaiting_payment ∷ cancelled ∷ expired ∷ []
transitions awaiting_payment =
    submitted ∷ detecting ∷ detected ∷ expired ∷ cancelled ∷ under_review ∷ []
transitions submitted =
    detecting ∷ detected ∷ verifying ∷ failed ∷ expired ∷ under_review ∷ cancelled ∷ []
transitions detecting = detected ∷ verifying ∷ failed ∷ expired ∷ under_review ∷ cancelled ∷ []
transitions detected =
    verifying ∷ pending_confirmation ∷ verified ∷ failed ∷ under_review ∷ expired ∷ []
transitions verifying =
    pending_confirmation ∷ verified ∷ failed ∷ under_review ∷ detected ∷ expired ∷ []
transitions pending_confirmation = verified ∷ verifying ∷ failed ∷ under_review ∷ expired ∷ []
transitions verified = []
transitions under_review = verified ∷ failed ∷ verifying ∷ cancelled ∷ []
transitions failed = under_review ∷ verifying ∷ []
transitions expired = under_review ∷ verifying ∷ []
transitions cancelled = []

-- Every member, as iterating over the enum gives them.
abbrev pub members : List PaymentStatus
members =
    created ∷ awaiting_payment ∷ submitted ∷ detecting ∷ detected ∷ verifying ∷ pending_confirmation
    ∷ verified ∷ under_review ∷ failed ∷ expired ∷ cancelled ∷ []
