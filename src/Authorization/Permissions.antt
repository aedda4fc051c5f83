-- ===== src/Authorization/Permissions.antt =====
-- pkg/authorization/permissions.go, with the roles of pkg/users/user.go.
use loyalty_points_app.Prelude.{
  String, Bool, false, Option, none, some, List, [], ◌∷◌, any, ◌==◌, if◌then◌else◌,
}
use loyalty_points_app.Authentication.Context.{LoginClaim, Context, login_claim_from_context}

abbrev pub role_member : String
role_member = "member"

abbrev pub role_admin : String
role_admin = "admin"

abbrev pub perm_account_read_own : String
perm_account_read_own = "account:read:own"

abbrev pub perm_account_read_all : String
perm_account_read_all = "account:read:all"

abbrev pub perm_account_write_own : String
perm_account_write_own = "account:write:own"

abbrev pub perm_account_write_all : String
perm_account_write_all = "account:write:all"

abbrev pub perm_audit_read_own : String
perm_audit_read_own = "audit:read:own"

abbrev pub perm_audit_read_all : String
perm_audit_read_all = "audit:read:all"

abbrev pub perm_transaction_read_own : String
perm_transaction_read_own = "transaction:read:own"

abbrev pub perm_transaction_read_all : String
perm_transaction_read_all = "transaction:read:all"

abbrev pub perm_user_read_own : String
perm_user_read_own = "user:read:own"

abbrev pub perm_user_read_all : String
perm_user_read_all = "user:read:all"

abbrev pub perm_wallet_transact_own : String
perm_wallet_transact_own = "wallet:transact:own"

abbrev pub perm_wallet_transact_all : String
perm_wallet_transact_all = "wallet:transact:all"

abbrev pub perm_wallet_batch_all : String
perm_wallet_batch_all = "wallet:batch:all"

abbrev pub perm_auth_logout : String
perm_auth_logout = "auth:logout"

-- `RolePermissions[RoleMember]` and `RolePermissions[RoleAdmin]`
abbrev pub member_permissions : List String
member_permissions =
    perm_account_read_own ∷ perm_account_write_own ∷ perm_audit_read_own ∷ perm_transaction_read_own
    ∷ perm_user_read_own ∷ perm_wallet_transact_own ∷ perm_auth_logout ∷ []

abbrev pub admin_permissions : List String
admin_permissions =
    perm_account_read_all ∷ perm_account_write_all ∷ perm_audit_read_all ∷ perm_transaction_read_all
    ∷ perm_user_read_all ∷ perm_wallet_transact_all ∷ perm_wallet_batch_all ∷ perm_auth_logout ∷ []

-- A role that is no key of the map has no permission.
unfoldable pub permissions_for_role : String → List String
permissions_for_role role =
    if role == role_member
    then member_permissions
    else if role == role_admin
    then admin_permissions
    else []

abbrev pub holds : List String → String → Bool
holds perms permission = any (λ p. p == permission) perms

abbrev pub claim_grants : Option LoginClaim → String → Bool
claim_grants none permission = false
claim_grants (some claim) permission = holds claim.permissions permission

unfoldable pub is_granted : Context → String → Bool
is_granted ctx permission = claim_grants (login_claim_from_context ctx) permission
