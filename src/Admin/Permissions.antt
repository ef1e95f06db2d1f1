-- ===== src/Admin/Permissions.antt =====
-- app/admin/permissions/rbac.py. A name that is no permission, or no role, is not a value of these types.
pub mod Guarded
use professional_bot.Prelude.{
  ℕ, zero, suc, ◌≡◌, refl, sym, ◌∙◌, ap, arith, Bool, true, false, not, List, [], ◌∷◌, ◌++◌, Eq,
  code_eq, contains, filter_by, Result, ok, err, raise_if, permission_denied, some, Option, none,
}
use professional_bot.Domain.Enums.RoleName.{RoleName}
use professional_bot.Domain.Enums.RoleName

pub data Permissions : Type 0 where
  dashboard_view analytics_view audit_view logs_view orders_view orders_cancel : Permissions
  orders_force_delivery payments_view payments_recheck payments_approve : Permissions
  payments_reject refunds_create refunds_complete reconciliation_resolve : Permissions
  products_view products_manage products_archive categories_manage : Permissions
  inventory_view inventory_manage inventory_adjust coupons_view coupons_manage : Permissions
  referrals_view users_view users_manage users_ban resellers_view : Permissions
  resellers_manage resellers_keys support_view support_reply support_assign : Permissions
  providers_view providers_manage providers_credentials payment_methods_manage : Permissions
  blockchain_manage settings_manage maintenance_toggle broadcast_send : Permissions
  roles_manage : Permissions

-- `PERMISSIONS`, in the order of the class.
abbrev pub all_permissions : List Permissions
all_permissions =
    dashboard_view ∷ analytics_view ∷ audit_view ∷ logs_view ∷ orders_view ∷ orders_cancel
    ∷ orders_force_delivery ∷ payments_view ∷ payments_recheck ∷ payments_approve ∷ payments_reject
    ∷ refunds_create ∷ refunds_complete ∷ reconciliation_resolve ∷ products_view ∷ products_manage
    ∷ products_archive ∷ categories_manage ∷ inventory_view ∷ inventory_manage ∷ inventory_adjust
    ∷ coupons_view ∷ coupons_manage ∷ referrals_view ∷ users_view ∷ users_manage ∷ users_ban
    ∷ resellers_view ∷ resellers_manage ∷ resellers_keys ∷ support_view ∷ support_reply
    ∷ support_assign ∷ providers_view ∷ providers_manage ∷ providers_credentials
    ∷ payment_methods_manage ∷ blockchain_manage ∷ settings_manage ∷ maintenance_toggle
    ∷ broadcast_send ∷ roles_manage ∷ []

abbrev pub code : Permissions → ℕ
code dashboard_view = 0
code analytics_view = 1
code audit_view = 2
code logs_view = 3
code orders_view = 4
code orders_cancel = 5
code orders_force_delivery = 6
code payments_view = 7
code payments_recheck = 8
code payments_approve = 9
code payments_reject = 10
code refunds_create = 11
code refunds_complete = 12
code reconciliation_resolve = 13
code products_view = 14
code products_manage = 15
code products_archive = 16
code categories_manage = 17
code inventory_view = 18
code inventory_manage = 19
code inventory_adjust = 20
code coupons_view = 21
code coupons_manage = 22
code referrals_view = 23
code users_view = 24
code users_manage = 25
code users_ban = 26
code resellers_view = 27
code resellers_manage = 28
code resellers_keys = 29
code support_view = 30
code support_reply = 31
code support_assign = 32
code providers_view = 33
code providers_manage = 34
code providers_credentials = 35
code payment_methods_manage = 36
code blockchain_manage = 37
code settings_manage = 38
code maintenance_toggle = 39
code broadcast_send = 40
code roles_manage = 41

abbrev nth : ℕ → List Permissions → Option Permissions
nth n [] = none
nth zero (p ∷ ps) = some p
nth (suc n) (p ∷ ps) = nth n ps

nth-code : (p : Permissions) → nth (code p) all_permissions ≡ some p
nth-code dashboard_view = refl
nth-code analytics_view = refl
nth-code audit_view = refl
nth-code logs_view = refl
nth-code orders_view = refl
nth-code orders_cancel = refl
nth-code orders_force_delivery = refl
nth-code payments_view = refl
nth-code payments_recheck = refl
nth-code payments_approve = refl
nth-code payments_reject = refl
nth-code refunds_create = refl
nth-code refunds_complete = refl
nth-code reconciliation_resolve = refl
nth-code products_view = refl
nth-code products_manage = refl
nth-code products_archive = refl
nth-code categories_manage = refl
nth-code inventory_view = refl
nth-code inventory_manage = refl
nth-code inventory_adjust = refl
nth-code coupons_view = refl
nth-code coupons_manage = refl
nth-code referrals_view = refl
nth-code users_view = refl
nth-code users_manage = refl
nth-code users_ban = refl
nth-code resellers_view = refl
nth-code resellers_manage = refl
nth-code resellers_keys = refl
nth-code support_view = refl
nth-code support_reply = refl
nth-code support_assign = refl
nth-code providers_view = refl
nth-code providers_manage = refl
nth-code providers_credentials = refl
nth-code payment_methods_manage = refl
nth-code blockchain_manage = refl
nth-code settings_manage = refl
nth-code maintenance_toggle = refl
nth-code broadcast_send = refl
nth-code roles_manage = refl

some_injective : {a b : Permissions} → some a ≡ some b → a ≡ b
some_injective h = cc

pub code-injective : (a b : Permissions) → code a ≡ code b → a ≡ b
code-injective a b h =
    some_injective (sym (nth-code a) ∙ ap (λ n. nth n all_permissions) h ∙ nth-code b)

instance abbrev pub permissions_eq : Eq Permissions
permissions_eq = code_eq code code-injective

-- `HIGH_RISK_PERMISSIONS`
abbrev pub high_risk_permissions : List Permissions
high_risk_permissions =
    payments_approve ∷ payments_reject ∷ refunds_create ∷ refunds_complete ∷ providers_credentials
    ∷ payment_methods_manage ∷ blockchain_manage ∷ inventory_adjust ∷ products_archive ∷ users_ban
    ∷ broadcast_send ∷ maintenance_toggle ∷ roles_manage ∷ orders_force_delivery ∷ []

-- `_READ_ONLY`
abbrev pub read_only : List Permissions
read_only =
    dashboard_view ∷ orders_view ∷ payments_view ∷ products_view ∷ inventory_view ∷ users_view
    ∷ coupons_view ∷ resellers_view ∷ support_view ∷ analytics_view ∷ referrals_view
    ∷ providers_view ∷ []

-- `set(PERMISSIONS) - {…}`
abbrev pub without : List Permissions → List Permissions → List Permissions
without ps xs = filter_by (λ p. not (contains xs p)) ps

-- `ROLE_PERMISSIONS`
unfoldable pub role_permissions : RoleName → List Permissions
role_permissions RoleName.super_admin = all_permissions
role_permissions RoleName.admin =
    without all_permissions (roles_manage ∷ providers_credentials ∷ blockchain_manage ∷ [])
role_permissions RoleName.payment_manager =
    read_only
    ++ payments_recheck ∷ payments_approve ∷ payments_reject ∷ refunds_create
      ∷ reconciliation_resolve ∷ orders_cancel ∷ audit_view ∷ []
role_permissions RoleName.product_manager =
    read_only
    ++ products_manage ∷ products_archive ∷ categories_manage ∷ inventory_manage ∷ inventory_adjust
      ∷ coupons_manage ∷ []
role_permissions RoleName.support_agent =
    read_only ++ support_reply ∷ support_assign ∷ payments_recheck ∷ []
role_permissions RoleName.analyst = read_only ++ audit_view ∷ []
role_permissions RoleName.reseller_manager = read_only ++ resellers_manage ∷ resellers_keys ∷ []

unfoldable pub permissions_for : List RoleName → List Permissions
permissions_for [] = []
permissions_for (r ∷ rs) = role_permissions r ++ permissions_for rs

unfoldable pub has_permission : List RoleName → Permissions → Bool
has_permission roles permission = contains (permissions_for roles) permission

unfoldable pub require_permission : List RoleName → Permissions → Result (Unit {0})
require_permission roles permission =
    raise_if (not (has_permission roles permission)) permission_denied

unfoldable pub is_high_risk : Permissions → Bool
is_high_risk permission = contains high_risk_permissions permission

-- Every member is a value of the class.
pub listed : (p : Permissions) → contains all_permissions p ≡ true
listed dashboard_view = refl
listed analytics_view = refl
listed audit_view = refl
listed logs_view = refl
listed orders_view = refl
listed orders_cancel = refl
listed orders_force_delivery = refl
listed payments_view = refl
listed payments_recheck = refl
listed payments_approve = refl
listed payments_reject = refl
listed refunds_create = refl
listed refunds_complete = refl
listed reconciliation_resolve = refl
listed products_view = refl
listed products_manage = refl
listed products_archive = refl
listed categories_manage = refl
listed inventory_view = refl
listed inventory_manage = refl
listed inventory_adjust = refl
listed coupons_view = refl
listed coupons_manage = refl
listed referrals_view = refl
listed users_view = refl
listed users_manage = refl
listed users_ban = refl
listed resellers_view = refl
listed resellers_manage = refl
listed resellers_keys = refl
listed support_view = refl
listed support_reply = refl
listed support_assign = refl
listed providers_view = refl
listed providers_manage = refl
listed providers_credentials = refl
listed payment_methods_manage = refl
listed blockchain_manage = refl
listed settings_manage = refl
listed maintenance_toggle = refl
listed broadcast_send = refl
listed roles_manage = refl
