-- ===== src/Domain/Payments/Fingerprint/Decimals.antt =====
-- `str` of a number: its decimal digits.
use professional_bot.Prelude.{
  ℕ, zero, suc, ◌+◌, ◌-◌, ◌*◌, ◌/◌, ◌%◌, ◌<◌, ◌≡◌, refl, ap, sym, ◌∙◌, [], ◌∷◌, ◌++◌, arith, ltb,
  if◌then◌else◌, All, Bool-cases, inl, inr, ltb→lt,
}
use professional_bot.Prelude.Text.{Text}

-- Digits from the last one back, on fuel; a number is below `fuel` digits long if it is below `fuel`.
unfoldable pub digits_text : ℕ → ℕ → Text
digits_text zero n = []
digits_text (suc fuel) n =
    let front = digits_text fuel (n / 10) in
    if ltb n 10 then (48 + n) ∷ [] else front ++ (48 + n % 10) ∷ []

unfoldable pub to_decimal_text : ℕ → Text
unfolding digits_text
to_decimal_text n = digits_text (suc n) n

-- The number that digits stand for.
value : ℕ → Text → ℕ
value acc [] = acc
value acc (c ∷ s) = value (10 * acc + (c - 48)) s

value-append : (acc : ℕ) (s : Text) (c : ℕ) → value acc (s ++ c ∷ []) ≡ 10 * value acc s + (c - 48)
unfolding value
value-append acc [] c = refl
value-append acc (d ∷ s) c = value-append (10 * acc + (d - 48)) s c

value-digits_text : (fuel n : ℕ) → n < fuel → value 0 (digits_text fuel n) ≡ n
unfolding digits_text
value-digits_text zero n h = absurd (omega arith)
value-digits_text (suc fuel) n h = elim (Bool-cases (ltb n 10)) [
  | inl small ↦ rw small (unfold value in omega arith)
  | inr large ↦ rw large (rw value-append (ground (arith, value-digits_text fuel (n / 10))))
]

-- Different numbers print differently.
pub to_decimal_text-injective : (m n : ℕ) → to_decimal_text m ≡ to_decimal_text n → m ≡ n
unfolding to_decimal_text
to_decimal_text-injective m n h =
    sym (value-digits_text (suc m) m (omega arith))
    ∙ ap (value 0) h
    ∙ value-digits_text (suc n) n (omega arith)

-- A digit is none of the codes from 58 up.
abbrev pub IsDigits : Text → Type 0
IsDigits s = All (λ c. c < 58) s

IsDigits-append : (s : Text) (c : ℕ) → IsDigits s → c < 58 → IsDigits (s ++ c ∷ [])
IsDigits-append [] c h g = (g, tt)
IsDigits-append (d ∷ s) c h g = (h.0, IsDigits-append s c h.1 g)

digits_text-IsDigits : (fuel n : ℕ) → IsDigits (digits_text fuel n)
unfolding digits_text
digits_text-IsDigits zero n = tt
digits_text-IsDigits (suc fuel) n = elim (Bool-cases (ltb n 10)) [
  | inl small ↦ rw small (omega (arith, ltb→lt n 10 small), tt)
  | inr large ↦ rw large (
      IsDigits-append (digits_text fuel (n / 10)) (48 + n % 10) (digits_text-IsDigits fuel (n / 10))
        (omega arith))
]

pub to_decimal_text-IsDigits : (n : ℕ) → IsDigits (to_decimal_text n)
unfolding to_decimal_text
to_decimal_text-IsDigits n = digits_text-IsDigits (suc n) n
