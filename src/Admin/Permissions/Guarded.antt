-- ===== src/Admin/Permissions/Guarded.antt =====
-- What a set of roles of app/admin/permissions/rbac.py may do.
use professional_bot.Prelude.{
  ◌≡◌, ◌↔◌, ◌⊎◌, refl, arith, false, not, List, [], ◌∷◌, In, contains, ok, inl, inr, raise_if-eq-ok,
  permission_denied, In-append, In-left, In-right, contains-In, In-contains, subst,
}
use professional_bot.Domain.Enums.RoleName.{RoleName}
use professional_bot.Admin.Permissions.{
  Permissions, permissions_eq, roles_manage, providers_credentials, blockchain_manage,
  role_permissions, permissions_for, has_permission, require_permission, listed,
}

pub granted_by :
    (roles : List RoleName) (p : Permissions)
    → In p (permissions_for roles)
    → (r : RoleName) × In r roles × In p (role_permissions r)
unfolding permissions_for
granted_by [] p m = absurd m.1
granted_by (r ∷ rs) p m = elim (In-append p (role_permissions r) (permissions_for rs) m) [
  | inl here ↦ (r, inl refl, here)
  | inr there ↦ let (s, n, k) = granted_by rs p there in (s, inr n, k)
]

pub permissions_for-granted :
    (roles : List RoleName) (p : Permissions) (r : RoleName)
    → In r roles
    → In p (role_permissions r)
    → In p (permissions_for roles)
unfolding permissions_for
permissions_for-granted [] p r m k = absurd m.1
permissions_for-granted (s ∷ rs) p r (inl q) k =
    In-left p (role_permissions s) (permissions_for rs) (subst (λ t. In p (role_permissions t)) q k)
permissions_for-granted (s ∷ rs) p r (inr m) k =
    In-right p (role_permissions s) (permissions_for rs) (permissions_for-granted rs p r m k)

-- The permissions that only a super admin is given.
abbrev pub reserved : List Permissions
reserved = roles_manage ∷ providers_credentials ∷ blockchain_manage ∷ []

only_super_admin :
    (r : RoleName)
    → (r ≡ RoleName.super_admin)
      ⊎ ((contains (role_permissions r) roles_manage ≡ false)
          × (contains (role_permissions r) providers_credentials ≡ false)
          × (contains (role_permissions r) blockchain_manage ≡ false))
unfolding role_permissions
only_super_admin RoleName.super_admin = inl refl
only_super_admin RoleName.admin = inr (refl, refl, refl)
only_super_admin RoleName.payment_manager = inr (refl, refl, refl)
only_super_admin RoleName.product_manager = inr (refl, refl, refl)
only_super_admin RoleName.support_agent = inr (refl, refl, refl)
only_super_admin RoleName.analyst = inr (refl, refl, refl)
only_super_admin RoleName.reseller_manager = inr (refl, refl, refl)

lacks : (xs : List Permissions) (p q : Permissions) → p ≡ q → contains xs q ≡ false → In p xs → ⊥
lacks xs p q e h m = let t = In-contains xs q (subst (λ x. In x xs) e m) in cc (h, t)

reserved_to :
    (r : RoleName) (p : Permissions)
    → In p reserved
    → In p (role_permissions r)
    → r ≡ RoleName.super_admin
reserved_to r p m k = elim (only_super_admin r) [
  | inl super ↦ super
  | inr (a, b, c) ↦ absurd (elim m [
    | inl q ↦ lacks (role_permissions r) p roles_manage q a k
    | inr (inl q) ↦ lacks (role_permissions r) p providers_credentials q b k
    | inr (inr (inl q)) ↦ lacks (role_permissions r) p blockchain_manage q c k
    | inr (inr (inr none_left)) ↦ none_left.1
  ])
]

super_admin_has : (p : Permissions) → In p (role_permissions RoleName.super_admin)
unfolding role_permissions
super_admin_has p = contains-In (role_permissions RoleName.super_admin) p (listed p)

passes :
    (roles : List RoleName) (p : Permissions)
    → In p (permissions_for roles)
    → require_permission roles p ≡ ok tt
unfolding require_permission has_permission
passes roles p m = rw (In-contains (permissions_for roles) p m) refl

passed :
    (roles : List RoleName) (p : Permissions)
    → require_permission roles p ≡ ok tt
    → In p (permissions_for roles)
unfolding require_permission has_permission
passed roles p h =
    let k = raise_if-eq-ok (not (contains (permissions_for roles) p)) permission_denied h in
    contains-In (permissions_for roles) p (ground (arith, k))

-- The guard lets a permission pass exactly when one of the roles grants it.
pub require_permission-Granted :
    (roles : List RoleName) (p : Permissions)
    → (require_permission roles p ≡ ok tt)
      ↔ ((r : RoleName) × In r roles × In p (role_permissions r))
require_permission-Granted roles p = (
  (λ h. granted_by roles p (passed roles p h)),
  (λ g. passes roles p (permissions_for-granted roles p g.0 g.1 g.2)),
)

-- Managing roles, credentials of providers and the blockchain settings passes exactly when a super admin is
-- among the roles, whatever the other roles are.
pub require_permission-Reserved :
    (roles : List RoleName) (p : Permissions)
    → In p reserved
    → (require_permission roles p ≡ ok tt) ↔ In RoleName.super_admin roles
require_permission-Reserved roles p m = (
  (λ h.
      let (r, n, k) = granted_by roles p (passed roles p h) in
      subst (λ s. In s roles) (reserved_to r p m k) n),
  (λ n.
      passes roles p (permissions_for-granted roles p RoleName.super_admin n (super_admin_has p))),
)
