-- ===== src/Accounts/Admin.antt =====
-- The balance adjustment is an administrator's.
use loyalty_points_app.Prelude.{◌≡◌, refl, String, false, some, ◌==◌}
use loyalty_points_app.Prelude.Int.{ℤ}
use loyalty_points_app.Errs.{with_message, forbidden}
use loyalty_points_app.Authentication.Context.{Context, LoginClaim}
use loyalty_points_app.Authorization.{role_admin}
use loyalty_points_app.Sql.{Env, World, err}
use loyalty_points_app.Accounts.Adaptor.{update_account_balance_handler}

-- The balance handler refuses a caller whose claim is in the context and is not an admin's,
-- whatever the claim's permissions are, and touches nothing.
pub update_account_balance_handler_admin_only :
    (ctx : Context) (claim : LoginClaim) (account_id : String) (delta : ℤ) (e : Env) (w : World)
    → ctx.claim ≡ some claim
    → (claim.role == role_admin) ≡ false
    → update_account_balance_handler ctx account_id delta e w
      ≡ (err (with_message forbidden "balance adjustment is admin-only"), w)
unfolding update_account_balance_handler
update_account_balance_handler_admin_only ctx claim account_id delta e w known other =
    rw known (rw other refl)
