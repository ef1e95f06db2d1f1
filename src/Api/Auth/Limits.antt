-- ===== src/Api/Auth/Limits.antt =====
-- How many keys of a reseller are in force.
use professional_bot.Prelude.{
  ℕ, ◌≤◌, ◌<◌, sym, subst, arith, Bool, List, [], ◌∷◌, ◌++◌, ◌==◌, nat_eq, eq_of_beq, Bool-cases,
  inl, inr,
}
use professional_bot.Prelude.Text.{Text}
use professional_bot.Domain.Resellers.{ApiKey, Agency}
use professional_bot.Domain.Resellers.Keys.{active_count}
use professional_bot.Domain.Resellers.Kept.{active_count-map, active_count-append}
use professional_bot.Api.Auth.Sequences.{Steps}
use professional_bot.Api.Auth.Writes.{KeyWrite, Step-KeyWrite}

-- No reseller has more than ten keys in force.
abbrev pub AtMostTen : List ApiKey → Type 0
AtMostTen keys = (i : ℕ) → active_count i keys ≤ 10

added_count :
    (i : ℕ) (k : ApiKey) (keys : List ApiKey)
    → active_count k.reseller_id keys < 10
    → active_count i keys ≤ 10
    → active_count i (keys ++ k ∷ []) ≤ 10
unfolding active_count
added_count i k keys few before =
    let counted = active_count-append i keys (k ∷ []) in
    elim (Bool-cases (k.reseller_id == i)) [
      | inl own ↦
          let few' = subst (λ x. active_count x keys < 10) (eq_of_beq k.reseller_id i own) few in
          ground (arith, counted, few')
      | inr other ↦ ground (arith, counted, other, before)
    ]

KeyWrite-AtMostTen : (a b : Agency) → KeyWrite a b → AtMostTen a.keys → AtMostTen b.keys
KeyWrite-AtMostTen a b (KeyWrite.untouched e) few = subst AtMostTen (sym e) few
KeyWrite-AtMostTen a b (KeyWrite.written f kept e) few =
    subst AtMostTen (sym e)
      (λ i. let less = active_count-map f kept i a.keys in let n = few i in omega arith)
KeyWrite-AtMostTen a b (KeyWrite.added k room e) few =
    subst AtMostTen (sym e) (λ i. added_count i k a.keys room (few i))

module _ (hash_api_key : Text → Text) (is_address : Text → Bool) (entry_has : Text → Text → Bool)
    (rate_limit : ℕ → ℕ → Bool) (default_limit : ℕ) where
  -- Where no reseller has more than ten keys in force, no sequence of activations, suspensions, reinstatements, new keys,
  -- revocations and authentications, each of which returned, gives a reseller more.
  pub Steps-AtMostTen :
      (a b : Agency)
      → Steps hash_api_key is_address entry_has rate_limit default_limit a b
      → AtMostTen a.keys
      → AtMostTen b.keys
  Steps-AtMostTen a b Steps.done few = few
  Steps-AtMostTen a b (Steps.next {b = m} s rest) few = Steps-AtMostTen m b rest (
      KeyWrite-AtMostTen a m
        (Step-KeyWrite hash_api_key is_address entry_has rate_limit default_limit a m s) few)
