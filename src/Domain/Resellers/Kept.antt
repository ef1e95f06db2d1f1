-- ===== src/Domain/Resellers/Kept.antt =====
-- What a write to the keys of app/domain/resellers/service.py keeps.
use professional_bot.Prelude.{
  ℕ, ◌+◌, ◌≤◌, ◌≡◌, refl, ◌∙◌, ap, arith, Bool, true, not, ◌&&◌, List, [], ◌∷◌, ◌++◌, Option, none,
  some, ◌==◌, nat_eq, map, if◌then◌else◌, Bool-cases, inl, inr,
}
use professional_bot.Prelude.Text.{Text, text_eq}
use professional_bot.Domain.Resellers.{ApiKey, is_revoked}
use professional_bot.Domain.Resellers.Keys.{find_by_hash, active_count}

-- A write that leaves the owner and the hash of a key, and never takes a revocation back.
pub record Keeps (f : ApiKey → ApiKey) : Type 0 where
  pub same_hash : (k : ApiKey) → (f k).key_hash ≡ k.key_hash
  pub same_owner : (k : ApiKey) → (f k).reseller_id ≡ k.reseller_id
  pub stays_revoked : (k : ApiKey) → is_revoked k ≡ true → is_revoked (f k) ≡ true

-- A write to the keys that pass a test.
pub Keeps-where :
    (t : ApiKey → Bool) (g : ApiKey → ApiKey) → Keeps g → Keeps (λ k. if t k then g k else k)
Keeps-where t g kept = record {
  same_hash = λ k. elim (Bool-cases (t k)) [ inl h ↦ rw h (kept.same_hash k) | inr h ↦ rw h refl ];
  same_owner =
      λ k. elim (Bool-cases (t k)) [ inl h ↦ rw h (kept.same_owner k) | inr h ↦ rw h refl ];
  stays_revoked =
      λ k r. elim (Bool-cases (t k)) [ inl h ↦ rw h (kept.stays_revoked k r) | inr h ↦ rw h r ];
}

module _ (f : ApiKey → ApiKey) (kept : Keeps f) where
  pub find_by_hash-map :
      (h : Text) (keys : List ApiKey) (k : ApiKey)
      → find_by_hash h keys ≡ some k
      → find_by_hash h (map f keys) ≡ some (f k)
  unfolding find_by_hash
  find_by_hash-map h [] k found = absurd (cc found)
  find_by_hash-map h (c ∷ keys) k found = elim (Bool-cases (c.key_hash == h)) [
    | inl here ↦
        rw (ap (λ x. x == h) (kept.same_hash c) ∙ here) (ap (λ o. f_of o) (rw here at found))
    | inr later ↦
        rw (ap (λ x. x == h) (kept.same_hash c) ∙ later)
          (find_by_hash-map h keys k (rw later at found))
  ]
    where
      f_of : Option ApiKey → Option ApiKey
      f_of none = none
      f_of (some x) = some (f x)

  pub active_count-map :
      (i : ℕ) (keys : List ApiKey) → active_count i (map f keys) ≤ active_count i keys
  unfolding active_count
  active_count-map i [] = omega arith
  active_count-map i (c ∷ keys) =
      let rest = active_count-map i keys in
      let owner = ap (λ x. x == i) (kept.same_owner c) in
      let revoked = kept.stays_revoked c in ground arith

pub find_by_hash-append :
    (h : Text) (keys more : List ApiKey) (k : ApiKey)
    → find_by_hash h keys ≡ some k
    → find_by_hash h (keys ++ more) ≡ some k
unfolding find_by_hash
find_by_hash-append h [] more k found = absurd (cc found)
find_by_hash-append h (c ∷ keys) more k found = elim (Bool-cases (c.key_hash == h)) [
  | inl here ↦ rw here (rw here at found)
  | inr later ↦ rw later (find_by_hash-append h keys more k (rw later at found))
]

pub active_count-append :
    (i : ℕ) (keys more : List ApiKey)
    → active_count i (keys ++ more) ≡ active_count i keys + active_count i more
unfolding active_count
active_count-append i [] more = omega arith
active_count-append i (c ∷ keys) more =
    elim (Bool-cases (c.reseller_id == i && not (is_revoked c))) [
      | inl counted ↦ rw counted (omega (arith, active_count-append i keys more))
      | inr skipped ↦ rw skipped (active_count-append i keys more)
    ]
