-- ===== src/Examples/Admitted.antt =====
-- Roles, and a reseller whose key is used, whose account is suspended, and reinstated.
use professional_bot.Prelude.{
  ℕ, ◌≡◌, Bool, List, ◌++◌, Option, Result, ◌↔◌, refl, true, [], ◌∷◌, In, none, some, inl, ok, err,
  authentication, arith,
}
use professional_bot.Prelude.Text.{Text, codes, text_eqb, lower, strip, starts_with}
use professional_bot.Core.Security.{GeneratedApiKey, parse_api_key, matches_api_key}
use professional_bot.Domain.Enums.RoleName
use professional_bot.Domain.Enums.ResellerStatus
use professional_bot.Domain.Enums.ApiScope
use professional_bot.Admin.Permissions.{roles_manage, require_permission}
use professional_bot.Admin.Permissions.Guarded.{require_permission-Reserved}
use professional_bot.Domain.Resellers.{
  ResellerAccount, ApiKey, Agency, suspend, reinstate, on_account,
}
use professional_bot.Domain.Resellers.Keys.{new_key, find_by_hash, active_count}
use professional_bot.Api.Auth.{
  ApiPrincipal, authenticate, with_token, with_key, admit, check_key, account_by_id, record_use,
  ip_allowed, bearer,
}
use professional_bot.Api.Auth.Sequences
use professional_bot.Api.Auth.Silenced.{suspend-Silenced}
use professional_bot.Api.Auth.Limits.{AtMostTen, Steps-AtMostTen}

require_permission-Reserved_example :
    (require_permission (RoleName.admin ∷ RoleName.super_admin ∷ []) roles_manage ≡ ok tt)
    ↔ In RoleName.super_admin (RoleName.admin ∷ RoleName.super_admin ∷ [])
require_permission-Reserved_example =
    require_permission-Reserved (RoleName.admin ∷ RoleName.super_admin ∷ []) roles_manage (inl refl)

abbrev account : ResellerAccount
account = record {
  id = 1;
  user_id = 7;
  business_name = codes "Shop";
  status = ResellerStatus.active;
  terms_accepted_at = some 0;
  terms_version = codes "1.0";
  rate_limit_per_minute = 120;
  ip_allowlist = [];
  api_requests_count = 0;
  suspended_reason = none;
  suspended_at = none;
}

abbrev token : Text
token = codes "rt_live_0a1b2c3d_abcdefghijklmnopqrstuvwxyzABCDEFGHIJ"

abbrev generated : GeneratedApiKey
generated = record {
  plaintext = token;
  prefix = codes "rt_live";
  public_id = codes "0a1b2c3d";
  hashed = token;
}

abbrev key : ApiKey
key = new_key 5 1 (codes "main") (ApiScope.orders_read ∷ []) true generated

abbrev agency : Agency
agency = record { accounts = account ∷ []; keys = key ∷ [] }

abbrev hash : Text → Text
hash s = s

abbrev is_address : Text → Bool
is_address s = true

abbrev entry_has : Text → Text → Bool
entry_has e s = true

abbrev rate_limit : ℕ → ℕ → Bool
rate_limit i limit = true

abbrev count_of : Result (ApiPrincipal × Agency) → ℕ
count_of (err e) = 0
count_of (ok (principal, after)) = sum_of after.keys
  where
    sum_of : List ApiKey → ℕ
    sum_of [] = 0
    sum_of (k ∷ keys) = k.requests_count

abbrev header : Option Text
header = some (codes "Bearer " ++ token)

-- The key is let in before the suspension.
let_in : count_of (authenticate hash is_address entry_has rate_limit 60 9 header none agency) ≡ 1
unfolding authenticate with_token with_key parse_api_key matches_api_key strip lower starts_with
    text_eqb find_by_hash admit check_key account_by_id record_use ip_allowed on_account
let_in = refl

found : find_by_hash token agency.keys ≡ some key
unfolding find_by_hash text_eqb
found = refl

given : bearer header ≡ some token
unfolding strip lower starts_with
given = refl

suspend-Silenced_example :
    authenticate hash is_address entry_has rate_limit 60 9 header none
      (reinstate 1 (suspend 3 1 (codes "abuse") none agency))
    ≡ err authentication
suspend-Silenced_example =
    suspend-Silenced hash is_address entry_has rate_limit 60 3 1 (codes "abuse") none agency
      (reinstate 1 (suspend 3 1 (codes "abuse") none agency)) key found refl
      (Sequences.Steps.next (Sequences.Step.reinstated 1 refl) Sequences.Steps.done) 9 header none
      token given refl

one_key : AtMostTen agency.keys
unfolding active_count
one_key i = ground arith

Steps-AtMostTen_example : AtMostTen (suspend 3 1 (codes "abuse") none agency).keys
Steps-AtMostTen_example =
    Steps-AtMostTen hash is_address entry_has rate_limit 60 agency
      (suspend 3 1 (codes "abuse") none agency)
      (Sequences.Steps.next (Sequences.Step.suspended 3 1 (codes "abuse") none refl)
        Sequences.Steps.done)
      one_key
