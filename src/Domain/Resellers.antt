-- ===== src/Domain/Resellers.antt =====
-- `ResellerService` of app/domain/resellers/service.py, its accounts and API keys, with the repositories of
-- app/db/repositories/resellers.py and the models of app/db/models/reseller.py.
pub mod Keys
pub mod Kept
use professional_bot.Prelude.{
  ℕ, suc, ◌+◌, Bool, true, false, not, ◌&&◌, ◌||◌, List, [], ◌∷◌, ◌++◌, Option, none, some, Result,
  ok, err, raise_if, ◌>>◌, ◌==◌, nat_eq, leb, take, filter_by, contains, map, is_some,
  if◌then◌else◌, permission_denied, conflict, integrity_error,
}
use professional_bot.Prelude.Text.{Text, text_eq, codes}
use professional_bot.Core.Security.{GeneratedApiKey}
use professional_bot.Domain.Enums.ResellerStatus
use professional_bot.Domain.Enums.ResellerStatus.{ResellerStatus, reseller_status_eq}
use professional_bot.Domain.Enums.ApiScope
use professional_bot.Domain.Enums.ApiScope.{ApiScope, api_scope_eq}

pub record ResellerAccount : Type 0 where
  pub id : ℕ
  pub user_id : ℕ
  pub business_name : Text
  pub status : ResellerStatus
  pub terms_accepted_at : Option ℕ
  pub terms_version : Text
  pub rate_limit_per_minute : ℕ
  pub ip_allowlist : List Text
  pub api_requests_count : ℕ
  pub suspended_reason : Option Text
  pub suspended_at : Option ℕ

abbrev pub is_active : ResellerAccount → Bool
is_active account = account.status == ResellerStatus.active

pub record ApiKey : Type 0 where
  pub id : ℕ
  pub reseller_id : ℕ
  pub name : Text
  pub public_id : Text
  pub prefix : Text
  pub key_hash : Text
  pub scopes : List ApiScope
  pub is_live : Bool
  pub last_used_at : Option ℕ
  pub last_used_ip : Option Text
  pub requests_count : ℕ
  pub expires_at : Option ℕ
  pub revoked_at : Option ℕ
  pub revoked_by_id : Option ℕ
  pub key_rate_limit : Option ℕ

abbrev pub is_revoked : ApiKey → Bool
is_revoked key = is_some key.revoked_at

-- What the service reads and writes.
pub record Agency : Type 0 where
  pub accounts : List ResellerAccount
  pub keys : List ApiKey

-- The settings that the service reads.
pub record Features : Type 0 where
  pub reseller_enabled : Bool
  pub reseller_self_activation : Bool
  pub default_rate_limit_per_minute : ℕ

unfoldable pub account_of_user : ℕ → List ResellerAccount → Option ResellerAccount
account_of_user i [] = none
account_of_user i (a ∷ rest) =
    let found = account_of_user i rest in if a.user_id == i then some a else found

abbrev pub new_account : ℕ → ℕ → Features → ℕ → Text → ResellerAccount
new_account row now features user_id display_name = record {
  id = row;
  user_id = user_id;
  business_name = display_name;
  status =
      if features.reseller_self_activation then ResellerStatus.active else ResellerStatus.pending;
  terms_accepted_at = some now;
  terms_version = codes "1.0";
  rate_limit_per_minute = features.default_rate_limit_per_minute;
  ip_allowlist = [];
  api_requests_count = 0;
  suspended_reason = none;
  suspended_at = none;
}

-- The checks of `activate` on an account that is there.
abbrev pub check_known : ResellerAccount → Result (Unit {0})
check_known account =
    raise_if (account.status == ResellerStatus.suspended) permission_denied
    >> raise_if (account.status == ResellerStatus.revoked) permission_denied

unfoldable pub activate_account :
    ℕ
    → ℕ
    → Features
    → ℕ
    → Text
    → Option ResellerAccount
    → Agency
    → Result (ResellerAccount × Agency)
activate_account row now features user_id display_name (some account) agency =
    check_known account >> ok (account, agency)
activate_account row now features user_id display_name none agency =
    let account = new_account row now features user_id display_name in
    ok (account, record agency { accounts = agency.accounts ++ account ∷ [] })

-- `activate`; `row` is the new id.
unfoldable pub activate : ℕ → ℕ → Features → ℕ → Text → Agency → Result (ResellerAccount × Agency)
activate row now features user_id display_name agency =
    raise_if (not features.reseller_enabled) permission_denied
    >> activate_account row now features user_id display_name
        (account_of_user user_id agency.accounts) agency

-- A write to the row of an account.
unfoldable pub on_account :
    ℕ → (ResellerAccount → ResellerAccount) → List ResellerAccount → List ResellerAccount
on_account i f accounts = map (λ a. if a.id == i then f a else a) accounts

-- `ApiKeyRepository.revoke`
abbrev pub revoked : ℕ → Option ℕ → ApiKey → ApiKey
revoked now actor_id key = record key { revoked_at = some now; revoked_by_id = actor_id }

abbrev pub revoke_of : ℕ → Option ℕ → ℕ → ApiKey → ApiKey
revoke_of now actor_id reseller_id key =
    if key.reseller_id == reseller_id && not (is_revoked key) then revoked now actor_id key else key

-- `suspend`, of the row with the id `account_id`.
unfoldable pub suspend : ℕ → ℕ → Text → Option ℕ → Agency → Agency
suspend now account_id reason actor_id agency = record {
  accounts =
      on_account account_id
        (λ a. record a {
          status = ResellerStatus.suspended;
          suspended_reason = some (take 255 reason);
          suspended_at = some now;
        })
        agency.accounts;
  keys = map (revoke_of now actor_id account_id) agency.keys;
}

unfoldable pub reinstate : ℕ → Agency → Agency
reinstate account_id agency = record agency {
  accounts =
      on_account account_id
        (λ a. record a {
          status = ResellerStatus.active;
          suspended_reason = none;
          suspended_at = none;
        })
        agency.accounts;
}
