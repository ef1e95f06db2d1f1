-- ===== src/Domain/Payments/Fingerprint/Identity.antt =====
-- The hashed identity of app/domain/payments/fingerprint.py, and its parts.
use professional_bot.Prelude.{ℕ, ◌≡◌, ◌≢◌, ◌↔◌, refl, [], ◌∷◌, ◌++◌, arith, All}
use professional_bot.Prelude.Text.{Text}
use professional_bot.Domain.Enums.NetworkCode.{NetworkCode}
use professional_bot.Domain.Enums.ProviderCode.{ProviderCode}
use professional_bot.Domain.Payments.Fingerprint.{
  provider_value, network_value, normalize_txid, transaction_identity,
}
use professional_bot.Domain.Payments.Fingerprint.Decimals.{
  to_decimal_text, to_decimal_text-injective, to_decimal_text-IsDigits, IsDigits,
}

abbrev bar : ℕ
bar = b'|'

abbrev HasNoBar : Text → Type 0
HasNoBar s = All (λ c. c ≢ bar) s

-- Two texts split at their first bar.
split_first :
    (a b s t : Text) → HasNoBar a → HasNoBar b → a ++ bar ∷ s ≡ b ++ bar ∷ t → (a ≡ b) × (s ≡ t)
split_first [] [] s t ha hb h = (refl, cc)
split_first [] (c ∷ b) s t ha hb h = absurd (hb.0 (cc))
split_first (c ∷ a) [] s t ha hb h = absurd (ha.0 (cc))
split_first (c ∷ a) (d ∷ b) s t ha hb h = let (p, q) = split_first a b s t ha.1 hb.1 (cc) in (cc, q)

digits_end : (b d e : Text) → IsDigits d → d ≡ b ++ bar ∷ e → ⊥
digits_end [] [] e h p = cc
digits_end [] (c ∷ d) e h p = let q : c ≡ bar = cc in omega (arith, h.0)
digits_end (c ∷ b) [] e h p = cc
digits_end (c ∷ b) (f ∷ d) e h p = digits_end b d e h.1 (cc)

-- Two texts split at their last bar, if digits follow it.
split_last :
    (a b d e : Text) → IsDigits d → IsDigits e → a ++ bar ∷ d ≡ b ++ bar ∷ e → (a ≡ b) × (d ≡ e)
split_last [] [] d e hd he h = (refl, cc)
split_last [] (c ∷ b) d e hd he h = absurd (digits_end b d e hd (cc))
split_last (c ∷ a) [] d e hd he h = absurd (digits_end a e d he (cc))
split_last (c ∷ a) (f ∷ b) d e hd he h = let (p, q) = split_last a b d e hd he (cc) in (cc, q)

provider_value-HasNoBar : (p : ProviderCode) → HasNoBar (provider_value p)
unfolding provider_value
provider_value-HasNoBar p = ground arith

network_value-HasNoBar : (n : NetworkCode) → HasNoBar (network_value n)
unfolding network_value
network_value-HasNoBar n = ground arith

provider_value-injective : (p q : ProviderCode) → provider_value p ≡ provider_value q → p ≡ q
unfolding provider_value
provider_value-injective p q h = ground arith

network_value-injective : (m n : NetworkCode) → network_value m ≡ network_value n → m ≡ n
unfolding network_value
network_value-injective m n h = ground arith

-- Two observations hash the same identity exactly when their providers, their networks, their
-- normalised transaction ids and their log indices are equal.
pub transaction_identity_iff :
    (p q : ProviderCode) (m n : NetworkCode) (x y : Text) (i j : ℕ)
    → (transaction_identity p m x i ≡ transaction_identity q n y j)
      ↔ ((p ≡ q) × (m ≡ n) × (normalize_txid x ≡ normalize_txid y) × (i ≡ j))
unfolding transaction_identity
transaction_identity_iff p q m n x y i j = (
  λ h.
      let (same_p, rest) =
        split_first (provider_value p) (provider_value q) _ _ (provider_value-HasNoBar p)
          (provider_value-HasNoBar q) h in
      let (same_n, tail) =
        split_first (network_value m) (network_value n) _ _ (network_value-HasNoBar m)
          (network_value-HasNoBar n) rest in
      let (same_x, same_i) =
        split_last (normalize_txid x) (normalize_txid y) (to_decimal_text i) (to_decimal_text j)
          (to_decimal_text-IsDigits i) (to_decimal_text-IsDigits j) tail in
      (
        provider_value-injective p q same_p,
        network_value-injective m n same_n,
        same_x,
        to_decimal_text-injective i j same_i,
      ),
  λ h. cc,
)
