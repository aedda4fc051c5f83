-- ===== src/Registration/Enrolment.antt =====
-- A registration as a whole.
use loyalty_points_app.Prelude.{String, ◌≡◌, refl, ap, sym, subst, ◌∙◌, false, [], ◌∷◌, ◌++◌}
use loyalty_points_app.Prelude.Int.{pos}
use loyalty_points_app.Authentication.Context.{Context}
use loyalty_points_app.Sql.Schema.{Db}
use loyalty_points_app.Sql.{
  Env, World, Result, ok, err, Action, pure, time_now, run_in_tx, Time, ◌>>=◌,
}
use loyalty_points_app.Sql.Atomic.{tick, tx_context, Transacts, run_in_tx-Transacts}
use loyalty_points_app.Accounts as Accounts
use loyalty_points_app.Accounts.{Account, has_account, has_user}
use loyalty_points_app.Users as Users
use loyalty_points_app.Users.{User, has_email}
use loyalty_points_app.Registration.Types.{RegisterRequest}
use loyalty_points_app.Registration.Service.{wallet_name, enrol}
use loyalty_points_app.Registration.Inserts.{
  row_of_user, row_of_account, AddsUser, AddsAccount, create-AddsUser, create-AddsAccount,
}

-- The tables with the user and his first account, both new, and nothing else.
abbrev pub Enrols : RegisterRequest → User → Env → Db → String → Db → Type 0
Enrols r user e db account_id db' =
    (a : Account) × (a.id ≡ account_id)
    × (a.owner_id ≡ user.id)
    × (a.name ≡ wallet_name r)
    × (a.balance ≡ pos 0)
    × (has_email user.email db.users ≡ false)
    × (has_user user.id db.users ≡ false)
    × (has_account a.id db.accounts ≡ false)
    × (db' ≡ record db {
      users = db.users ++ row_of_user e user ∷ [];
      accounts = db.accounts ++ row_of_account e a ∷ [];
    })

module _ (r : RegisterRequest) (user : User) where
  abbrev wallet : Time → Account
  wallet created_at = record {
    id = "";
    owner_id = user.id;
    name = wallet_name r;
    balance = pos 0;
    created_at = created_at;
  }

  abbrev Enrolled : Env → World → Result String × World → Type 0
  Enrolled e w (ok id, w') = Enrols r user e w.db id w'.db
  Enrolled e w (err x, w') = Unit

  Enrolled-AddsAccount :
      (created_at : Time) (e : Env) (w v : World) (z : Result Account × World)
      → has_email user.email w.db.users ≡ false
      → has_user user.id w.db.users ≡ false
      → v.db ≡ record w.db { users = w.db.users ++ row_of_user e user ∷ [] }
      → AddsAccount (wallet created_at) e v z
      → Enrolled e w (((λ _ _. z) >>= λ account. pure account.id) e v)
  Enrolled-AddsAccount created_at e w v (ok a, w') email id users
        (owner, name, balance, new, accounts) =
      (
        a,
        refl,
        owner,
        name,
        balance,
        email,
        id,
        subst (λ db. has_account a.id db.accounts ≡ false) users new,
        accounts
            ∙ ap {A = Db} {B = Db}
                (λ db. record db { accounts = db.accounts ++ row_of_account e a ∷ [] }) users,
      )
  Enrolled-AddsAccount created_at e w v (err x, w') email id users h = tt

  abbrev open_wallet : Context → User → Action String
  open_wallet ctx _ = do
    created_at ← time_now
    account ← Accounts.create ctx (record { account = wallet created_at })
    pure account.id

  Enrolled-AddsUser :
      (ctx : Context) (e : Env) (w : World) (z : Result User × World)
      → AddsUser user e w z
      → Enrolled e w (((λ _ _. z) >>= open_wallet ctx) e w)
  Enrolled-AddsUser ctx e w (ok u, v) (email, id, users) =
      Enrolled-AddsAccount (e.now v.calls) e w (tick v)
        (Accounts.create ctx (record { account = wallet (e.now v.calls) }) e (tick v)) email id
        users (create-AddsAccount ctx (wallet (e.now v.calls)) e (tick v))
  Enrolled-AddsUser ctx e w (err x, v) h = tt

  enrol-Enrolled : (ctx : Context) (e : Env) (w : World) → Enrolled e w (enrol r user ctx e w)
  unfolding enrol
  enrol-Enrolled ctx e w =
      Enrolled-AddsUser ctx e w (Users.create ctx (record { user = user }) e w)
        (create-AddsUser ctx user e w)

  -- The unit of work enrols the user, or leaves the tables alone.
  abbrev pub EnrolsOrKeeps : Env → World → Result String × World → Type 0
  EnrolsOrKeeps e w (ok id, w') = Enrols r user e w.db id w'.db
  EnrolsOrKeeps e w (err x, w') = w'.db ≡ w.db

  EnrolsOrKeeps-Transacts :
      (e : Env) (w : World) (ran z : Result String × World)
      → Enrolled e (tick w) ran
      → Transacts w ran z
      → EnrolsOrKeeps e w z
  EnrolsOrKeeps-Transacts e w (o, v) (ok id, w') enrolled (same, kept, next) =
      subst (Enrols r user e w.db id) (sym kept)
        (subst (λ o. Enrolled e (tick w) (o, v)) same enrolled)
  EnrolsOrKeeps-Transacts e w (o, v) (err x, w') enrolled kept = kept

  pub run_in_tx-EnrolsOrKeeps :
      (ctx : Context) (e : Env) (w : World)
      → ctx.in_tx ≡ false
      → EnrolsOrKeeps e w (run_in_tx ctx (enrol r user) e w)
  run_in_tx-EnrolsOrKeeps ctx e w outer =
      EnrolsOrKeeps-Transacts e w (enrol r user (tx_context ctx) e (tick w)) _
        (enrol-Enrolled (tx_context ctx) e (tick w))
        (run_in_tx-Transacts ctx (enrol r user) e w outer)
