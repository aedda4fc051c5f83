-- ===== src/Jsonrpc/Handlers.antt =====
-- What every protected handler begins with: the login claim of the request's context.
use loyalty_points_app.Prelude.{none, some}
use loyalty_points_app.Errs.{sentinel, unauthorized}
use loyalty_points_app.Authentication.Context.{LoginClaim, Context, login_claim_from_context}
use loyalty_points_app.Sql.{err, Action}

-- `if !ok { return errs.ErrUnauthorized }`
abbrev pub with_claim : {A : Type 0} → Context → (LoginClaim → Action A) → Action A
with_claim ctx f e w = elim (login_claim_from_context ctx) [
  | none ↦ (err (sentinel unauthorized), w)
  | some claim ↦ f claim e w
]
