-- ===== src/Domain/Enums/OrderStatus.antt =====
-- `OrderStatus` of app/domain/enums.py, its properties, and `ORDER_TRANSITIONS`.
use professional_bot.Prelude.{ℕ, ◌≡◌, arith, Bool, true, false, List, [], ◌∷◌, Eq, code_eq}

pub data OrderStatus : Type 0 where
  created payment_pending payment_verified fulfilling delivered completed cancelled expired
        manual_review delivery_failed refunded :
      OrderStatus

abbrev pub code : OrderStatus → ℕ
code created = 0
code payment_pending = 1
code payment_verified = 2
code fulfilling = 3
code delivered = 4
code completed = 5
code cancelled = 6
code expired = 7
code manual_review = 8
code delivery_failed = 9
code refunded = 10

pub code-injective : (s t : OrderStatus) → code s ≡ code t → s ≡ t
code-injective s t h = ground arith

instance abbrev pub order_status_eq : Eq OrderStatus
order_status_eq = code_eq code code-injective

unfoldable pub is_terminal : OrderStatus → Bool
is_terminal created = false
is_terminal payment_pending = false
is_terminal payment_verified = false
is_terminal fulfilling = false
is_terminal delivered = false
is_terminal completed = true
is_terminal cancelled = true
is_terminal expired = true
is_terminal manual_review = false
is_terminal delivery_failed = false
is_terminal refunded = true

unfoldable pub is_paid : OrderStatus → Bool
is_paid created = false
is_paid payment_pending = false
is_paid payment_verified = true
is_paid fulfilling = true
is_paid delivered = true
is_paid completed = true
is_paid cancelled = false
is_paid expired = false
is_paid manual_review = false
is_paid delivery_failed = true
is_paid refunded = true

-- `ORDER_TRANSITIONS`, the sets as lists.
unfoldable pub transitions : OrderStatus → List OrderStatus
transitions created = payment_pending ∷ cancelled ∷ expired ∷ []
transitions payment_pending =
    payment_verified ∷ cancelled ∷ expired ∷ manual_review ∷ payment_pending ∷ []
transitions payment_verified = fulfilling ∷ manual_review ∷ refunded ∷ []
transitions fulfilling = delivered ∷ delivery_failed ∷ manual_review ∷ []
transitions delivered = completed ∷ refunded ∷ []
transitions completed = refunded ∷ []
transitions cancelled = []
transitions expired = payment_pending ∷ manual_review ∷ []
transitions manual_review =
    payment_verified ∷ fulfilling ∷ cancelled ∷ refunded ∷ payment_pending ∷ []
transitions delivery_failed = fulfilling ∷ manual_review ∷ refunded ∷ []
transitions refunded = []
