-- ===== src/Domain/Resellers/Keys.antt =====
-- The API keys of `ResellerService` of app/domain/resellers/service.py.
use professional_bot.Prelude.{
  ℕ, suc, Bool, true, false, not, ◌&&◌, ◌||◌, List, [], ◌∷◌, ◌++◌, Option, none, some, Result, ok,
  err, raise_if, ◌>>◌, ◌==◌, nat_eq, leb, take, filter_by, contains, map, is_some, if◌then◌else◌,
  permission_denied, conflict, integrity_error,
}
use professional_bot.Prelude.Text.{Text, text_eq}
use professional_bot.Core.Security.{GeneratedApiKey}
use professional_bot.Domain.Enums.ResellerStatus.{reseller_status_eq}
use professional_bot.Domain.Enums.ApiScope.{ApiScope, api_scope_eq}
use professional_bot.Domain.Resellers.{
  ResellerAccount, is_active, ApiKey, is_revoked, Agency, revoked,
}

-- `SELF_SERVICE_SCOPES`
abbrev pub self_service_scopes : List ApiScope
self_service_scopes =
    ApiScope.products_read ∷ ApiScope.orders_create ∷ ApiScope.orders_read ∷ ApiScope.payments_read
    ∷ ApiScope.deliveries_read ∷ ApiScope.webhooks_manage ∷ []

-- The members of `ApiScope`, sorted by their value.
abbrev pub scopes_by_value : List ApiScope
scopes_by_value =
    ApiScope.deliveries_read ∷ ApiScope.orders_create ∷ ApiScope.orders_read
    ∷ ApiScope.payments_read ∷ ApiScope.products_read ∷ ApiScope.webhooks_manage ∷ []

-- `sorted(set(scopes) or {ApiScope.PRODUCTS_READ})`
unfoldable pub requested_scopes : List ApiScope → List ApiScope
requested_scopes [] = ApiScope.products_read ∷ []
requested_scopes (s ∷ scopes) = filter_by (contains (s ∷ scopes)) scopes_by_value

abbrev pub forbidden_scopes : List ApiScope → List ApiScope
forbidden_scopes requested = filter_by (λ s. not (contains self_service_scopes s)) requested

abbrev pub is_nonempty : List ApiScope → Bool
is_nonempty [] = false
is_nonempty (s ∷ scopes) = true

unfoldable pub active_count : ℕ → List ApiKey → ℕ
active_count i [] = 0
active_count i (k ∷ keys) =
    let rest = active_count i keys in
    if k.reseller_id == i && not (is_revoked k) then suc rest else rest

abbrev pub new_key : ℕ → ℕ → Text → List ApiScope → Bool → GeneratedApiKey → ApiKey
new_key row reseller_id name scopes live generated = record {
  id = row;
  reseller_id = reseller_id;
  name = take 64 name;
  public_id = generated.public_id;
  prefix = generated.prefix;
  key_hash = generated.hashed;
  scopes = scopes;
  is_live = live;
  last_used_at = none;
  last_used_ip = none;
  requests_count = 0;
  expires_at = none;
  revoked_at = none;
  revoked_by_id = none;
  key_rate_limit = none;
}

-- `ApiKeyRepository.authenticate`: the row with this hash.
unfoldable pub find_by_hash : Text → List ApiKey → Option ApiKey
find_by_hash h [] = none
find_by_hash h (k ∷ keys) =
    let rest = find_by_hash h keys in if k.key_hash == h then some k else rest

unfoldable pub find_by_public_id : Text → List ApiKey → Option ApiKey
find_by_public_id p [] = none
find_by_public_id p (k ∷ keys) =
    let rest = find_by_public_id p keys in if k.public_id == p then some k else rest

-- `ApiKeyRepository.create`; the hash and the public id are UNIQUE.
unfoldable pub create_key : ApiKey → Agency → Result Agency
create_key key agency =
    raise_if
      (is_some (find_by_hash key.key_hash agency.keys)
        || is_some (find_by_public_id key.public_id agency.keys))
      integrity_error
    >> ok (record agency { keys = agency.keys ++ key ∷ [] })

-- The checks of `create_api_key`.
abbrev pub check_new_key : ResellerAccount → List ApiScope → Agency → Result (Unit {0})
check_new_key account scopes agency =
    raise_if (not (is_active account)) permission_denied
    >> raise_if (is_nonempty (forbidden_scopes (requested_scopes scopes))) permission_denied
    >> raise_if (leb 10 (active_count account.id agency.keys)) conflict

-- `create_api_key`; `row` is the new id, and `generated` what generate_api_key answered.
unfoldable pub create_api_key :
    ℕ → ResellerAccount → Text → List ApiScope → Bool → GeneratedApiKey → Agency → Result Agency
create_api_key row account name scopes live generated agency =
    check_new_key account scopes agency
    >> create_key (new_key row account.id name (requested_scopes scopes) live generated) agency

unfoldable pub find_key : ℕ → List ApiKey → Option ApiKey
find_key i [] = none
find_key i (k ∷ keys) = let rest = find_key i keys in if k.id == i then some k else rest

-- A write to the row of a key.
abbrev pub on_key : ℕ → (ApiKey → ApiKey) → List ApiKey → List ApiKey
on_key i f keys = map (λ k. if k.id == i then f k else k) keys

unfoldable pub revoke_found : ℕ → ℕ → Option ℕ → Option ApiKey → Agency → Result Agency
revoke_found now account_id actor_id none agency = err permission_denied
revoke_found now account_id actor_id (some key) agency =
    raise_if (not (key.reseller_id == account_id)) permission_denied
    >> ok (
        if is_revoked key
        then agency
        else record agency { keys = on_key key.id (revoked now actor_id) agency.keys })

-- `revoke_api_key`
unfoldable pub revoke_api_key : ℕ → ℕ → ℕ → Option ℕ → Agency → Result Agency
revoke_api_key now account_id key_id actor_id agency =
    revoke_found now account_id actor_id (find_key key_id agency.keys) agency
