-- ===== src/Prelude/Membership.antt =====
-- Membership by position in lists that are appended and filtered.
use mathlib.Core.Path.{◌≡◌, refl, sym, ap, ◌∙◌}
use mathlib.Core.Logic.{◌⊎◌, inl, inr}
use mathlib.Core.Bool.{Bool, true}
use mathlib.Core.List.{List, [], ◌∷◌, ◌++◌}
use professional_bot.Prelude.Tests.{Bool-cases}
use professional_bot.Prelude.Classes.{Eq, ◌==◌, beq_of_eq, eq_of_beq}
use professional_bot.Prelude.Lists.{In, filter_by, contains}

pub In-append {ℓ} : {A : Type ℓ} (a : A) (xs ys : List A) → In a (xs ++ ys) → In a xs ⊎ In a ys
In-append a [] ys m = inr m
In-append a (x ∷ xs) ys (inl p) = inl (inl p)
In-append a (x ∷ xs) ys (inr m) = elim (In-append a xs ys m) [
  | inl here ↦ inl (inr here)
  | inr there ↦ inr there
]

pub In-left {ℓ} : {A : Type ℓ} (a : A) (xs ys : List A) → In a xs → In a (xs ++ ys)
In-left a [] ys m = absurd m.1
In-left a (x ∷ xs) ys (inl p) = inl p
In-left a (x ∷ xs) ys (inr m) = inr (In-left a xs ys m)

pub In-right {ℓ} : {A : Type ℓ} (a : A) (xs ys : List A) → In a ys → In a (xs ++ ys)
In-right a [] ys m = m
In-right a (x ∷ xs) ys m = inr (In-right a xs ys m)

pub filter_by-In {ℓ} :
    {A : Type ℓ} (p : A → Bool) (a : A) (xs : List A) → In a xs → p a ≡ true → In a (filter_by p xs)
filter_by-In p a [] m h = absurd m.1
filter_by-In p a (x ∷ xs) (inl q) h = rw (ap p (sym q) ∙ h) (inl q)
filter_by-In p a (x ∷ xs) (inr m) h = elim (Bool-cases (p x)) [
  | inl holds ↦ rw holds (inr (filter_by-In p a xs m h))
  | inr fails ↦ rw fails (filter_by-In p a xs m h)
]

pub In-filter_by {ℓ} :
    {A : Type ℓ} (p : A → Bool) (a : A) (xs : List A)
    → In a (filter_by p xs)
    → In a xs × (p a ≡ true)
In-filter_by p a [] m = absurd m.1
In-filter_by p a (x ∷ xs) m = elim (Bool-cases (p x)) [
  | inr fails ↦ let (n, h) = In-filter_by p a xs (rw fails at m) in (inr n, h)
  | inl holds ↦ elim (rw holds at m) [
    | inl q ↦ (inl q, ap p q ∙ holds)
    | inr later ↦ let (n, h) = In-filter_by p a xs later in (inr n, h)
  ]
]

module _ {ℓ} {A : Type ℓ} ⦃e : Eq A⦄ where
  pub contains-In : (xs : List A) (a : A) → contains xs a ≡ true → In a xs
  contains-In [] a h = absurd (cc h)
  contains-In (x ∷ xs) a h = elim (Bool-cases (a == x)) [
    | inl here ↦ inl (eq_of_beq a x here)
    | inr later ↦ inr (contains-In xs a (rw later at h))
  ]

  pub In-contains : (xs : List A) (a : A) → In a xs → contains xs a ≡ true
  In-contains [] a m = absurd m.1
  In-contains (x ∷ xs) a (inl q) = rw (beq_of_eq a x q) refl
  In-contains (x ∷ xs) a (inr m) = elim (Bool-cases (a == x)) [
    | inl here ↦ rw here refl
    | inr later ↦ rw later (In-contains xs a m)
  ]
