-- ===== src/Domain/Orders/Delivery/Lines.antt =====
-- `"\n".join(items)` and `text.split("\n")`, as app/domain/orders/delivery.py uses them.
use professional_bot.Prelude.{
  ℕ, ◌≡◌, refl, ap, false, List, [], ◌∷◌, ◌++◌, arith, All, nat_eq, ◌==◌, contains, if◌then◌else◌,
  Bool-cases, inl, inr,
}
use professional_bot.Prelude.Text.{Text}

abbrev pub newline : ℕ
newline = 10

unfoldable pub join_lines : List Text → Text
join_lines [] = []
join_lines (t ∷ []) = t
join_lines (t ∷ u ∷ us) = t ++ newline ∷ join_lines (u ∷ us)

-- The character in front of the first line.
abbrev pub into_first : ℕ → List Text → List Text
into_first c [] = (c ∷ []) ∷ []
into_first c (t ∷ ts) = (c ∷ t) ∷ ts

unfoldable pub split_lines : Text → List Text
split_lines [] = [] ∷ []
split_lines (c ∷ s) =
    let rest = split_lines s in if c == newline then [] ∷ rest else into_first c rest

-- A text of one line.
abbrev pub IsLine : Text → Type 0
IsLine t = contains t newline ≡ false

split_lines-line : (t : Text) → IsLine t → split_lines t ≡ t ∷ []
unfolding split_lines
split_lines-line [] h = refl
split_lines-line (c ∷ t) h = elim (Bool-cases (newline == c)) [
  | inl hit ↦ absurd (cc (h, hit))
  | inr miss ↦ ground (arith, split_lines-line t)
]

split_lines-append : (t s : Text) → IsLine t → split_lines (t ++ newline ∷ s) ≡ t ∷ split_lines s
unfolding split_lines
split_lines-append [] s h = refl
split_lines-append (c ∷ t) s h = ground (arith, split_lines-append t s)

-- Lines that are joined are split again.
pub split_lines-join_lines :
    (t : Text) (ts : List Text) → All IsLine (t ∷ ts) → split_lines (join_lines (t ∷ ts)) ≡ t ∷ ts
unfolding join_lines
split_lines-join_lines t [] h = split_lines-line t h.0
split_lines-join_lines t (u ∷ us) h =
    rw (split_lines-append t (join_lines (u ∷ us)) h.0)
      (ap (λ x. t ∷ x) (split_lines-join_lines u us h.1))
