-- ===== src/Authorization/Roles.antt =====
-- What the roles may do under the default policy.
use loyalty_points_app.Prelude.{◌≡◌, String, true, arith}
use loyalty_points_app.Authorization.Permissions.{member_permissions, admin_permissions}
use loyalty_points_app.Authorization.Policies.{default_policy, authorize}

-- Under the default policy, an admin may call every method that a member may call.
pub authorize_admin :
    (method : String)
    → authorize default_policy member_permissions method ≡ true
    → authorize default_policy admin_permissions method ≡ true
unfolding authorize default_policy
authorize_admin method h = ground arith
