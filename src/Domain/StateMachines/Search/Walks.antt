-- ===== src/Domain/StateMachines/Search/Walks.antt =====
-- Legal sequences of transitions, by length and as the lists that the search returns.
use professional_bot.Prelude.{
  ℕ, zero, suc, ◌+◌, ◌≤◌, ◌≡◌, refl, true, false, List, [], ◌∷◌, ◌++◌, arith, Eq, contains, length,
  if◌then◌else◌, subst,
}

module _ {A : Type 0} ⦃e : Eq A⦄ (next : A → List A) where
  abbrev pub Edge : A → A → Type 0
  Edge u v = contains (next u) v ≡ true

  -- `p` leads from `s` to `t`, `s` itself left out, as `payment_path` returns it.
  abbrev pub IsPath : A → List A → A → Type 0
  IsPath s [] t = s ≡ t
  IsPath s (u ∷ p) t = Edge s u × IsPath u p t

  -- A walk of `n` steps from `s` to `t`, by its last step.
  abbrev pub Walk : A → ℕ → A → Type 0
  Walk s zero t = s ≡ t
  Walk s (suc n) t = (u : A) × Walk s n u × Edge u t

  pub IsPath-snoc :
      (s : A) (p : List A) (u v : A) → IsPath s p u → Edge u v → IsPath s (p ++ v ∷ []) v
  IsPath-snoc s [] u v h x = (rw h x, refl)
  IsPath-snoc s (w ∷ p) u v h x = (h.0, IsPath-snoc w p u v h.1 x)

  Walk-on :
      (s u : A) (n : ℕ) (p : List A) (t : A) → Walk s n u → IsPath u p t → Walk s (n + length p) t
  Walk-on s u n [] t w h =
      let e : n + 0 ≡ n = omega arith in subst (λ x. Walk s (n + 0) x) h (rw e w)
  Walk-on s u n (v ∷ p) t w h =
      let e : n + suc (length p) ≡ suc n + length p = omega arith in
      rw e (Walk-on s v (suc n) p t (u, w, h.0) h.1)

  pub Walk-of_path : (s : A) (p : List A) (t : A) → IsPath s p t → Walk s (length p) t
  Walk-of_path s p t h =
      let e : 0 + length p ≡ length p = omega arith in rw e at (Walk-on s s 0 p t refl h)

-- How many members of `states` the search has not seen: the measure by which it ends.
module _ {A : Type 0} ⦃e : Eq A⦄ where
  pub unseen : List A → List A → ℕ
  unseen [] seen = 0
  unseen (a ∷ states) seen =
      let rest = unseen states seen in if contains seen a then rest else suc rest

  pub unseen_mono : (states seen : List A) (n : A) → unseen states (n ∷ seen) ≤ unseen states seen
  unfolding unseen
  unseen_mono [] seen n = omega arith
  unseen_mono (a ∷ states) seen n = ground (arith, unseen_mono states seen n)

  pub unseen-cons :
      (states seen : List A) (n : A)
      → contains states n ≡ true
      → contains seen n ≡ false
      → suc (unseen states (n ∷ seen)) ≤ unseen states seen
  unfolding unseen
  unseen-cons [] seen n h g = absurd (cc)
  unseen-cons (a ∷ states) seen n h g =
      ground
        (arith, unseen_mono states seen n, unseen-cons states seen n, e.beq_iff a n, e.beq_iff n a)

  pub unseen-le-length : (states seen : List A) → unseen states seen ≤ length states
  unfolding unseen
  unseen-le-length [] seen = omega arith
  unseen-le-length (a ∷ states) seen = ground (arith, unseen-le-length states seen)
