-- ===== src/Api/Auth/Writes.antt =====
-- What one operation on accounts and keys does to the keys.
use professional_bot.Prelude.{
  ℕ, suc, ◌<◌, ◌≡◌, refl, sym, ap, arith, Bool, not, ◌&&◌, ◌||◌, List, [], ◌∷◌, ◌++◌, Option, none,
  some, ◌==◌, nat_eq, leb, map, is_some, Bool-cases, inl, inr, ok, raise_if, raise_if-eq-ok,
  >>=-eq-ok, ok-injective, ◌>>◌, permission_denied, conflict, integrity_error, authentication,
}
use professional_bot.Prelude.Text.{Text}
use professional_bot.Core.Security.{GeneratedApiKey, parse_api_key}
use professional_bot.Domain.Enums.ApiScope.{ApiScope}
use professional_bot.Domain.Enums.ResellerStatus.{reseller_status_eq}
use professional_bot.Domain.Resellers.{
  ResellerAccount, ApiKey, Agency, Features, activate, account_of_user, activate_account,
  check_known, suspend, reinstate, revoked, revoke_of, is_revoked, is_active,
}
use professional_bot.Domain.Resellers.Keys.{
  create_api_key, create_key, check_new_key, new_key, requested_scopes, forbidden_scopes,
  is_nonempty, active_count, revoke_api_key, revoke_found, find_key, find_by_hash,
  find_by_public_id,
}
use professional_bot.Domain.Resellers.Kept.{Keeps, Keeps-where}
use professional_bot.Api.Auth.{
  ApiPrincipal, authenticate, with_key, with_token, check_key, admit, record_use, account_by_id,
  bearer, ip_column,
}
use professional_bot.Api.Auth.Sequences.{Step}

pub data KeyWrite (a b : Agency) : Type 0 where
  untouched : b.keys ≡ a.keys → KeyWrite a b
  written : (f : ApiKey → ApiKey) → Keeps f → b.keys ≡ map f a.keys → KeyWrite a b
  added :
      (k : ApiKey)
      → active_count k.reseller_id a.keys < 10
      → b.keys ≡ a.keys ++ k ∷ []
      → KeyWrite a b

revoked-Keeps : (now : ℕ) (actor_id : Option ℕ) → Keeps (revoked now actor_id)
revoked-Keeps now actor_id = record {
  same_hash = λ k. refl;
  same_owner = λ k. refl;
  stays_revoked = λ k h. refl;
}

pub revoke_of-Keeps :
    (now : ℕ) (actor_id : Option ℕ) (reseller_id : ℕ) → Keeps (revoke_of now actor_id reseller_id)
revoke_of-Keeps now actor_id reseller_id =
    Keeps-where (λ k. k.reseller_id == reseller_id && not (is_revoked k)) (revoked now actor_id)
      (revoked-Keeps now actor_id)

used-Keeps :
    (now : ℕ) (ip : Option Text)
    → Keeps (λ k. record k {
      last_used_at = some now;
      last_used_ip = ip_column ip;
      requests_count = suc k.requests_count;
    })
used-Keeps now ip = record {
  same_hash = λ k. refl;
  same_owner = λ k. refl;
  stays_revoked = λ k h. h;
}

activate_account-keys :
    (row now : ℕ) (features : Features) (user_id : ℕ) (display_name : Text)
    (known : Option ResellerAccount) (account : ResellerAccount) (a b : Agency)
    → activate_account row now features user_id display_name known a ≡ ok (account, b)
    → b.keys ≡ a.keys
unfolding activate_account
activate_account-keys row now features user_id display_name none account a b h =
    ap (λ p. p.1.keys) (sym (ok-injective h))
activate_account-keys row now features user_id display_name (some known) account a b h =
    let (_, _, g) = >>=-eq-ok (check_known known) _ h in ap (λ p. p.1.keys) (sym (ok-injective g))

create_api_key-KeyWrite :
    (row : ℕ) (account : ResellerAccount) (name : Text) (scopes : List ApiScope) (live : Bool)
    (generated : GeneratedApiKey) (a b : Agency)
    → create_api_key row account name scopes live generated a ≡ ok b
    → KeyWrite a b
unfolding create_api_key create_key
create_api_key-KeyWrite row account name scopes live generated a b h =
    let key = new_key row account.id name (requested_scopes scopes) live generated in
    let full = leb 10 (active_count account.id a.keys) in
    let (_, e, g) = >>=-eq-ok (check_new_key account scopes a) _ h in
    let (_, _, few) =
      >>=-eq-ok
        (raise_if (not (is_active account)) permission_denied
          >> raise_if (is_nonempty (forbidden_scopes (requested_scopes scopes))) permission_denied)
        _ e in
    let room = raise_if-eq-ok full conflict few in
    let taken =
      is_some (find_by_hash key.key_hash a.keys)
      || is_some (find_by_public_id key.public_id a.keys) in
    let (_, _, g') = >>=-eq-ok (raise_if taken integrity_error) _ g in
    added key (ground (arith, room)) (ap (λ s. s.keys) (sym (ok-injective g')))

revoke_found-KeyWrite :
    (now account_id : ℕ) (actor_id : Option ℕ) (found : Option ApiKey) (a b : Agency)
    → revoke_found now account_id actor_id found a ≡ ok b
    → KeyWrite a b
unfolding revoke_found
revoke_found-KeyWrite now account_id actor_id none a b h = absurd (cc h)
revoke_found-KeyWrite now account_id actor_id (some key) a b h =
    let (_, _, g) =
      >>=-eq-ok (raise_if (not (key.reseller_id == account_id)) permission_denied) _ h in
    elim (Bool-cases (is_revoked key)) [
      | inl already ↦ untouched (ap (λ s. s.keys) (sym (ok-injective (rw already at g))))
      | inr live ↦
          written _
            (Keeps-where (λ k. k.id == key.id) (revoked now actor_id) (revoked-Keeps now actor_id))
            (ap (λ s. s.keys) (sym (ok-injective (rw live at g))))
    ]

module _ (hash_api_key : Text → Text) (is_address : Text → Bool) (entry_has : Text → Text → Bool)
    (rate_limit : ℕ → ℕ → Bool) (default_limit : ℕ) where
  with_key-KeyWrite :
      (now : ℕ) (ip : Option Text) (found : Option ApiKey) (principal : ApiPrincipal) (a b : Agency)
      → with_key hash_api_key is_address entry_has rate_limit default_limit now ip found a
        ≡ ok (principal, b)
      → KeyWrite a b
  unfolding with_key admit record_use
  with_key-KeyWrite now ip none principal a b h = absurd (cc h)
  with_key-KeyWrite now ip (some key) principal a b h =
      admitted (account_by_id key.reseller_id a.accounts) h
    where
      admitted :
          (reseller : Option ResellerAccount)
          → admit hash_api_key is_address entry_has rate_limit default_limit now ip key reseller a
            ≡ ok (principal, b)
          → KeyWrite a b
      admitted none g = absurd (cc g)
      admitted (some reseller) g =
          let (_, _, g') =
            >>=-eq-ok
              (check_key hash_api_key is_address entry_has rate_limit default_limit now ip key
                reseller)
              _ g in
          written _ (Keeps-where (λ k. k.id == key.id) _ (used-Keeps now ip))
            (ap (λ p. p.1.keys) (sym (ok-injective g')))

  with_token-KeyWrite :
      (now : ℕ) (ip token : Option Text) (principal : ApiPrincipal) (a b : Agency)
      → with_token hash_api_key is_address entry_has rate_limit default_limit now ip token a
        ≡ ok (principal, b)
      → KeyWrite a b
  unfolding with_token
  with_token-KeyWrite now ip none principal a b h = absurd (cc h)
  with_token-KeyWrite now ip (some token) principal a b h =
      let (_, _, g) =
        >>=-eq-ok (raise_if (not (is_some (parse_api_key token))) authentication) _ h in
      with_key-KeyWrite now ip (find_by_hash (hash_api_key token) a.keys) principal a b g

  pub Step-KeyWrite :
      (a b : Agency)
      → Step hash_api_key is_address entry_has rate_limit default_limit a b
      → KeyWrite a b
  unfolding suspend reinstate activate revoke_api_key authenticate
  Step-KeyWrite a b (Step.activated row now features user_id display_name account h) =
      let (_, _, g) = >>=-eq-ok (raise_if (not features.reseller_enabled) permission_denied) _ h in
      untouched (
        activate_account-keys row now features user_id display_name
          (account_of_user user_id a.accounts) account a b g)
  Step-KeyWrite a b (Step.suspended now account_id reason actor_id h) =
      written (revoke_of now actor_id account_id) (revoke_of-Keeps now actor_id account_id)
        (ap (λ s. s.keys) (sym h))
  Step-KeyWrite a b (Step.reinstated account_id h) = untouched (ap (λ s. s.keys) (sym h))
  Step-KeyWrite a b (Step.created row account name scopes live generated h) =
      create_api_key-KeyWrite row account name scopes live generated a b h
  Step-KeyWrite a b (Step.withdrawn now account_id key_id actor_id h) =
      revoke_found-KeyWrite now account_id actor_id (find_key key_id a.keys) a b h
  Step-KeyWrite a b (Step.used now authorization ip principal h) =
      with_token-KeyWrite now ip (bearer authorization) principal a b h
