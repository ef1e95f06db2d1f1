-- ===== src/Prelude/Classes.antt =====
-- Equality tests as an interface. Python compares enum members, UUIDs, texts and numbers by `==`.
use Prim.Native.Nat.{ℕ}
use mathlib.Core.Path.{◌≡◌, refl, ap}
use mathlib.Core.Logic.{◌↔◌}
use mathlib.Core.Bool.{Bool, true}
use native.Mathlib.Omega.{arith}
use professional_bot.Prelude.Tests.{nat_eqb, nat_eqb_iff}

pub record Eq {κ} (T : Type κ) : Type κ where
  pub beq : (x y : T) → Bool
  pub beq_iff : (x y : T) → (beq x y ≡ true) ↔ (x ≡ y)

instance abbrev pub nat_eq : Eq ℕ
nat_eq = record { beq_iff = nat_eqb_iff; beq = nat_eqb }

-- `a == b`
abbrev pub ◌==◌ {κ} : {B : Type κ} ⦃i : Eq B⦄ (x y : B) → Bool

infix 50 ◌==◌
◌==◌ ⦃i⦄ x y = i.beq x y

pub code_iff {ℓ} :
    {A : Type ℓ} (code : A → ℕ)
    → ((a b : A) → code a ≡ code b → a ≡ b)
    → (a b : A) → (nat_eqb (code a) (code b) ≡ true) ↔ (a ≡ b)
code_iff code inj a b = (
  λ h. inj a b ((nat_eqb_iff (code a) (code b)).0 h),
  λ p. (nat_eqb_iff (code a) (code b)).1 (ap code p),
)

-- Equality by an injective code, as for an enum's members.
abbrev pub code_eq {ℓ} : {A : Type ℓ} (code : A → ℕ) → ((a b : A) → code a ≡ code b → a ≡ b) → Eq A
code_eq code inj = record { beq = λ a b. nat_eqb (code a) (code b); beq_iff = code_iff code inj }

module _ {ℓ} {A : Type ℓ} ⦃e : Eq A⦄ where
  pub beq_refl : (a : A) → (a == a) ≡ true
  beq_refl a = (e.beq_iff a a).1 refl

  pub beq_of_eq : (a b : A) → a ≡ b → (a == b) ≡ true
  beq_of_eq a b p = (e.beq_iff a b).1 p

  pub eq_of_beq : (a b : A) → (a == b) ≡ true → a ≡ b
  eq_of_beq a b h = (e.beq_iff a b).0 h

  pub beq_comm : (a b : A) → (a == b) ≡ (b == a)
  beq_comm a b = ground (arith, e.beq_iff a b, e.beq_iff b a)
