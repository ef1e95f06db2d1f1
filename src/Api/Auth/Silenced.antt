-- ===== src/Api/Auth/Silenced.antt =====
-- A key that was revoked, and what a caller gets for it.
use professional_bot.Prelude.{
  ℕ, ◌≡◌, refl, sym, subst, Bool, true, List, Option, none, some, nat_eq, beq_of_eq, is_some,
  Bool-cases, inl, inr, err, authentication,
}
use professional_bot.Prelude.Text.{Text}
use professional_bot.Core.Security.{parse_api_key}
use professional_bot.Domain.Resellers.{
  ResellerAccount, ApiKey, Agency, is_revoked, revoke_of, suspend,
}
use professional_bot.Domain.Resellers.Keys.{find_by_hash}
use professional_bot.Domain.Resellers.Kept.{find_by_hash-map, find_by_hash-append}
use professional_bot.Api.Auth.{
  authenticate, with_token, with_key, admit, check_key, bearer, account_by_id,
}
use professional_bot.Api.Auth.Sequences.{Steps}
use professional_bot.Api.Auth.Writes.{KeyWrite, Step-KeyWrite, revoke_of-Keeps}

-- The row that a hash leads to is revoked.
abbrev pub IsSilent : Text → List ApiKey → Type 0
IsSilent h keys = (k : ApiKey) × (find_by_hash h keys ≡ some k) × (is_revoked k ≡ true)

KeyWrite-IsSilent : (h : Text) (a b : Agency) → KeyWrite a b → IsSilent h a.keys → IsSilent h b.keys
KeyWrite-IsSilent h a b (KeyWrite.untouched e) silent = subst (IsSilent h) (sym e) silent
KeyWrite-IsSilent h a b (KeyWrite.written f kept e) (k, found, gone) =
    subst (IsSilent h) (sym e)
      (f k, find_by_hash-map f kept h a.keys k found, kept.stays_revoked k gone)
KeyWrite-IsSilent h a b (KeyWrite.added new few e) (k, found, gone) =
    subst (IsSilent h) (sym e) (k, find_by_hash-append h a.keys _ k found, gone)

revoke_of-revoked :
    (now : ℕ) (actor_id : Option ℕ) (i : ℕ) (k : ApiKey)
    → k.reseller_id ≡ i
    → is_revoked (revoke_of now actor_id i k) ≡ true
revoke_of-revoked now actor_id i k owner = elim (Bool-cases (is_revoked k)) [
  | inl already ↦ rw (beq_of_eq k.reseller_id i owner, already) already
  | inr live ↦ rw (beq_of_eq k.reseller_id i owner, live) refl
]

pub suspend-IsSilent :
    (now account_id : ℕ) (reason : Text) (actor_id : Option ℕ) (a : Agency) (k : ApiKey)
    → find_by_hash k.key_hash a.keys ≡ some k
    → k.reseller_id ≡ account_id
    → IsSilent k.key_hash (suspend now account_id reason actor_id a).keys
unfolding suspend
suspend-IsSilent now account_id reason actor_id a k found owner = (
  revoke_of now actor_id account_id k,
  find_by_hash-map (revoke_of now actor_id account_id) (revoke_of-Keeps now actor_id account_id)
      k.key_hash a.keys k found,
  revoke_of-revoked now actor_id account_id k owner,
)

module _ (hash_api_key : Text → Text) (is_address : Text → Bool) (entry_has : Text → Text → Bool)
    (rate_limit : ℕ → ℕ → Bool) (default_limit : ℕ) where
  Steps-IsSilent :
      (h : Text) (a b : Agency)
      → Steps hash_api_key is_address entry_has rate_limit default_limit a b
      → IsSilent h a.keys
      → IsSilent h b.keys
  Steps-IsSilent h a b Steps.done silent = silent
  Steps-IsSilent h a b (Steps.next {b = m} s rest) silent = Steps-IsSilent h m b rest (
      KeyWrite-IsSilent h a m
        (Step-KeyWrite hash_api_key is_address entry_has rate_limit default_limit a m s) silent)

  refused :
      (now : ℕ) (ip : Option Text) (k : ApiKey) (reseller : Option ResellerAccount) (a : Agency)
      → is_revoked k ≡ true
      → admit hash_api_key is_address entry_has rate_limit default_limit now ip k reseller a
        ≡ err authentication
  unfolding admit check_key
  refused now ip k none a gone = refl
  refused now ip k (some reseller) a gone = rw gone refl

  silent_token :
      (now : ℕ) (ip token : Option Text) (t h : Text) (a : Agency)
      → token ≡ some t
      → hash_api_key t ≡ h
      → IsSilent h a.keys
      → with_token hash_api_key is_address entry_has rate_limit default_limit now ip token a
        ≡ err authentication
  unfolding with_token with_key
  silent_token now ip token t h a given hashed (k, found, gone) =
      rw (given, hashed, found)
        (elim (Bool-cases (is_some (parse_api_key t))) [
          | inl parsed ↦
              rw parsed (refused now ip k (account_by_id k.reseller_id a.accounts) a gone)
          | inr malformed ↦ rw malformed refl
        ])

  -- From the suspension of an account on, whatever is done to the accounts and keys afterwards, its reinstatement included,
  -- a caller with a token that hashes to a key which the account had is refused with AuthenticationError.
  pub suspend-Silenced :
      (now account_id : ℕ) (reason : Text) (actor_id : Option ℕ) (a b : Agency) (k : ApiKey)
      → find_by_hash k.key_hash a.keys ≡ some k
      → k.reseller_id ≡ account_id
      → Steps hash_api_key is_address entry_has rate_limit default_limit
          (suspend now account_id reason actor_id a)
          b
      → (later : ℕ) (authorization ip : Option Text) (token : Text)
      → bearer authorization ≡ some token
      → hash_api_key token ≡ k.key_hash
      → authenticate hash_api_key is_address entry_has rate_limit default_limit later authorization
          ip b
        ≡ err authentication
  unfolding authenticate
  suspend-Silenced now account_id reason actor_id a b k found owner steps later authorization ip
        token given hashed =
      silent_token later ip (bearer authorization) token k.key_hash b given hashed (
        Steps-IsSilent k.key_hash (suspend now account_id reason actor_id a) b steps
          (suspend-IsSilent now account_id reason actor_id a k found owner))
