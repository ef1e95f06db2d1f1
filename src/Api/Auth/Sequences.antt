-- ===== src/Api/Auth/Sequences.antt =====
-- Sequences of the operations on accounts and keys, of app/domain/resellers/service.py and
-- app/api/dependencies/auth.py, each of which returned.
use professional_bot.Prelude.{ℕ, Bool, ◌≡◌, List, Option, ok}
use professional_bot.Prelude.Text.{Text}
use professional_bot.Core.Security.{GeneratedApiKey}
use professional_bot.Domain.Enums.ApiScope.{ApiScope}
use professional_bot.Domain.Resellers.{
  ResellerAccount, Agency, Features, activate, suspend, reinstate,
}
use professional_bot.Domain.Resellers.Keys.{create_api_key, revoke_api_key}
use professional_bot.Api.Auth.{ApiPrincipal, authenticate}

module _ (hash_api_key : Text → Text) (is_address : Text → Bool) (entry_has : Text → Text → Bool)
    (rate_limit : ℕ → ℕ → Bool) (default_limit : ℕ) where
  pub data Step (a b : Agency) : Type 0 where
    activated :
        (row now : ℕ) (features : Features) (user_id : ℕ) (display_name : Text)
        (account : ResellerAccount)
        → activate row now features user_id display_name a ≡ ok (account, b)
        → Step a b
    suspended :
        (now account_id : ℕ) (reason : Text) (actor_id : Option ℕ)
        → suspend now account_id reason actor_id a ≡ b
        → Step a b
    reinstated : (account_id : ℕ) → reinstate account_id a ≡ b → Step a b
    created :
        (row : ℕ) (account : ResellerAccount) (name : Text) (scopes : List ApiScope) (live : Bool)
        (generated : GeneratedApiKey)
        → create_api_key row account name scopes live generated a ≡ ok b
        → Step a b
    withdrawn :
        (now account_id key_id : ℕ) (actor_id : Option ℕ)
        → revoke_api_key now account_id key_id actor_id a ≡ ok b
        → Step a b
    used :
        (now : ℕ) (authorization ip : Option Text) (principal : ApiPrincipal)
        → authenticate hash_api_key is_address entry_has rate_limit default_limit now authorization
            ip a
          ≡ ok (principal, b)
        → Step a b

  pub data Steps : Agency → Agency → Type 0 where
    done : {a : Agency} → Steps a a
    next : {a b c : Agency} → Step a b → Steps b c → Steps a c
