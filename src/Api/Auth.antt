-- ===== src/Api/Auth.antt =====
-- `authenticate` of app/api/dependencies/auth.py. The limiter of app/core/redis.py, the parsing of addresses and networks
-- and the digest of keys are parameters.
pub mod Sequences
pub mod Writes
pub mod Silenced
pub mod Limits
use professional_bot.Prelude.{
  ℕ, zero, suc, Bool, true, false, not, ◌&&◌, List, [], ◌∷◌, Option, none, some, Result, ok, err,
  raise_if, ◌>>◌, ◌==◌, nat_eq, leb, take, any, contains, is_some, if◌then◌else◌, permission_denied,
  authentication, rate_limited,
}
use professional_bot.Prelude.Text.{Text, codes, is_empty, or_empty, lower, strip, starts_with}
use professional_bot.Core.Security.{drop, parse_api_key}
use professional_bot.Domain.Enums.ApiScope.{ApiScope, api_scope_eq}
use professional_bot.Domain.Resellers.{ResellerAccount, ApiKey, Agency, is_active, on_account}
use professional_bot.Domain.Resellers.Keys.{find_by_hash, on_key}

pub record ApiPrincipal : Type 0 where
  pub api_key : ApiKey
  pub reseller : ResellerAccount
  pub scopes : List ApiScope
  pub ip : Option Text

unfoldable pub require_scope : ApiScope → ApiPrincipal → Result (Unit {0})
require_scope scope principal = raise_if (not (contains principal.scopes scope)) permission_denied

unfoldable pub account_by_id : ℕ → List ResellerAccount → Option ResellerAccount
account_by_id i [] = none
account_by_id i (a ∷ rest) = let found = account_by_id i rest in if a.id == i then some a else found

-- `ip or None` of a text column
abbrev pub ip_column : Option Text → Option Text
ip_column ip = let s = take 64 (or_empty ip) in if is_empty s then none else some s

-- `ApiKeyRepository.touch` and `ResellerRepository.record_api_request`
unfoldable pub record_use : ℕ → Option Text → ApiKey → ResellerAccount → Agency → Agency
record_use now ip key account agency = record {
  accounts =
      on_account account.id (λ a. record a { api_requests_count = suc a.api_requests_count })
        agency.accounts;
  keys =
      on_key key.id
        (λ k. record k {
          last_used_at = some now;
          last_used_ip = ip_column ip;
          requests_count = suc k.requests_count;
        })
        agency.keys;
}

abbrev pub expired : ℕ → Option ℕ → Bool
expired now none = false
expired now (some t) = leb t now

-- `a or b`, of limits
abbrev pub limit_or : ℕ → ℕ → ℕ
limit_or zero b = b
limit_or (suc a) b = suc a

abbrev pub limit_of : Option ℕ → ℕ
limit_of none = 0
limit_of (some n) = n

abbrev pub has_entries : List Text → Bool
has_entries [] = false
has_entries (e ∷ entries) = true

-- The token of `Bearer …`, of a header that may be missing.
abbrev pub bearer : Option Text → Option Text
bearer authorization =
    if starts_with (lower (or_empty authorization)) (codes "bearer ")
    then some (strip (drop 7 (or_empty authorization)))
    else none

module _ (hash_api_key : Text → Text) (is_address : Text → Bool) (entry_has : Text → Text → Bool)
    (rate_limit : ℕ → ℕ → Bool) (default_limit : ℕ) where
  -- `_ip_allowed`; an entry that does not parse has no address.
  unfoldable pub ip_allowed : Option Text → List Text → Bool
  ip_allowed ip allowlist =
      not (is_empty (or_empty ip))
      && is_address (or_empty ip)
      && any (λ e. entry_has e (or_empty ip)) allowlist

  -- The checks of a key that was found, with its account.
  unfoldable pub check_key : ℕ → Option Text → ApiKey → ResellerAccount → Result (Unit {0})
  check_key now ip key reseller =
      raise_if (is_some key.revoked_at) authentication
      >> raise_if (expired now key.expires_at) authentication
      >> raise_if (not (is_active reseller)) authentication
      >> raise_if (has_entries reseller.ip_allowlist && not (ip_allowed ip reseller.ip_allowlist))
          permission_denied
      >> raise_if
          (not (
            rate_limit key.id (
              limit_or (limit_of key.key_rate_limit)
                (limit_or reseller.rate_limit_per_minute default_limit))))
          rate_limited

  unfoldable pub admit :
      ℕ → Option Text → ApiKey → Option ResellerAccount → Agency → Result (ApiPrincipal × Agency)
  admit now ip key none agency = err authentication
  admit now ip key (some reseller) agency =
      check_key now ip key reseller
      >> ok (
        record { api_key = key; reseller = reseller; scopes = key.scopes; ip = ip },
        record_use now ip key reseller agency,
      )

  -- The row of the key, when there is one.
  unfoldable pub with_key :
      ℕ → Option Text → Option ApiKey → Agency → Result (ApiPrincipal × Agency)
  with_key now ip none agency = err authentication
  with_key now ip (some key) agency =
      admit now ip key (account_by_id key.reseller_id agency.accounts) agency

  unfoldable pub with_token :
      ℕ → Option Text → Option Text → Agency → Result (ApiPrincipal × Agency)
  with_token now ip none agency = err authentication
  with_token now ip (some token) agency =
      raise_if (not (is_some (parse_api_key token))) authentication
      >> with_key now ip (find_by_hash (hash_api_key token) agency.keys) agency

  unfoldable pub authenticate :
      ℕ → Option Text → Option Text → Agency → Result (ApiPrincipal × Agency)
  authenticate now authorization ip agency = with_token now ip (bearer authorization) agency
