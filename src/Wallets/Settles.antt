-- ===== src/Wallets/Settles.antt =====
-- One attempt settles: it is accepted, replayed or rejected as a whole, whatever fails on the way.
use loyalty_points_app.Prelude.{
  String, ◌≡◌, refl, ◌<◌, inl, inr, true, false, some, Option, Bool-cases, arith,
}
use loyalty_points_app.Prelude.Int.{ℤ}
use loyalty_points_app.Errs.{Error, is, duplicate_ref}
use loyalty_points_app.Authentication.Context.{Context}
use loyalty_points_app.Sql.{Time, Env, World, Result, ok, err, run_in_tx}
use loyalty_points_app.Sql.Atomic.{tx_context, tick, Transacts, run_in_tx-Transacts}
use loyalty_points_app.Authorization.{is_granted}
use loyalty_points_app.Accounts.{affected_rows, add_to_rows, overflows}
use loyalty_points_app.Accounts.Effects as AccountEffects
use loyalty_points_app.Audits.Effects as AuditEffects
use loyalty_points_app.Audits.{outcome_accepted, outcome_duplicate}
use loyalty_points_app.Wallets.Types.{
  Transaction, ProcessTransactionRequest, ProcessTransactionResponse,
}
use loyalty_points_app.Wallets.Service.{
  build_audit_entry, after_create, or_reject, reject_transaction, replay_duplicate, apply_created,
  unit_of_work,
}
use loyalty_points_app.Wallets.Effects
use loyalty_points_app.Wallets.Outcomes.{write_scoped, Done, Refused}

module _ (e : Env) (ctx : Context) (request : ProcessTransactionRequest) (delta : ℤ)
    (now occurred_at : Time) (owner : String) where
  abbrev Replays : World → Result ProcessTransactionResponse × World → Type 0
  Replays w (ok resp, w') =
      (resp.duplicate ≡ true)
      × (w'.db ≡ record w.db {
        audit_entries =
            AuditEffects.audited e w'
              (build_audit_entry request delta (some owner) outcome_duplicate "duplicate" now)
              w.db.audit_entries;
      })
  Replays w (err x, w') = w'.db ≡ w.db

  replay_duplicate-Replays :
      (w : World) → Replays w (replay_duplicate ctx request delta now owner e w)
  unfolding replay_duplicate
  replay_duplicate-Replays w =
      grind (arith, AccountEffects.db-get_by_id, Effects.db-get_by_id, AuditEffects.create-Records)

  abbrev Applies : Transaction → World → Result ProcessTransactionResponse × World → Type 0
  Applies t w (ok resp, w') =
      (resp.duplicate ≡ false)
      × (resp.transaction ≡ t)
      × (0 < affected_rows (write_scoped ctx) delta request.account_id owner w.db.accounts)
      × (overflows delta request.account_id w.db.accounts ≡ false)
      × (w'.db ≡ record w.db {
        accounts = add_to_rows (write_scoped ctx) delta request.account_id owner w.db.accounts;
        audit_entries =
            AuditEffects.audited e w'
              (build_audit_entry request delta (some owner) outcome_accepted "ok" now)
              w.db.audit_entries;
      })
  Applies t w (err x, w') = Unit

  apply_created-Applies :
      (t : Transaction) (w : World) → Applies t w (apply_created ctx request delta now owner t e w)
  unfolding apply_created
  apply_created-Applies t w =
      grind (arith, AccountEffects.update_account_balance-Updates, AuditEffects.create-Records)

  abbrev Works : World → Result ProcessTransactionResponse × World → Type 0
  Works w (ok resp, w') = Done e (write_scoped ctx) request delta now occurred_at owner w.db resp w'
  Works w (err x, w') = Unit

  abbrev requested : Transaction
  requested = record {
    id = "";
    ref = request.ref;
    account_id = request.account_id;
    owner_id = owner;
    kind = request.kind;
    points = delta;
    occurred_at = occurred_at;
    recorded_at = now;
    created_by = request.user_id;
  }

  after_create-Works :
      (w : World) (r : Result Transaction) (v : World)
      → Effects.Creates e requested w (r, v)
      → Works w (after_create ctx request delta now owner r e v)
  after_create-Works w (ok t) v h = ground (arith, apply_created-Applies t v)
  after_create-Works w (err x) v h = elim (Bool-cases (is x duplicate_ref)) [
    | inl d ↦ rw d (ground (arith, replay_duplicate-Replays v))
    | inr d ↦ rw d tt
  ]

  unit_of_work-Works :
      (w : World) → Works w (unit_of_work ctx request delta now occurred_at owner e w)
  unfolding unit_of_work
  unit_of_work-Works w =
      after_create-Works w _ _ (Effects.create-Creates ctx (record { transaction = requested }) e w)

module _ (e : Env) (ctx : Context) (request : ProcessTransactionRequest) (delta : ℤ)
    (now occurred_at : Time) (owner : String) where
  write_scoped-tx : write_scoped (tx_context ctx) ≡ write_scoped ctx
  unfolding is_granted
  write_scoped-tx = refl

  abbrev pub Commits : World → Result ProcessTransactionResponse × World → Type 0
  Commits w (ok resp, w') =
      Done e (write_scoped ctx) request delta now occurred_at owner w.db resp w'
  Commits w (err x, w') = w'.db ≡ w.db

  pub run_in_tx-Commits :
      (w : World)
      → ctx.in_tx ≡ false
      → Commits w (run_in_tx ctx (λ tx. unit_of_work tx request delta now occurred_at owner) e w)
  run_in_tx-Commits w outer =
      go _ _ _ _
        (run_in_tx-Transacts ctx (λ tx. unit_of_work tx request delta now occurred_at owner) e w
          outer)
        (unit_of_work-Works e (tx_context ctx) request delta now occurred_at owner (tick w))
    where
      go :
          (ran r : Result ProcessTransactionResponse) (v w' : World)
          → Transacts w (ran, v) (r, w')
          → Works e (tx_context ctx) request delta now occurred_at owner (tick w) (ran, v)
          → Commits w (r, w')
      go (ok a) (ok b) v w' t d = ground (arith, write_scoped-tx)
      go (err x) (ok b) v w' t d = cc
      go ran (err x) v w' t d = t

  abbrev pub Refuses : Option String → World → Result ProcessTransactionResponse × World → Type 0
  Refuses o w (ok resp, w') = ⊥
  Refuses o w (err x, w') = Refused e (write_scoped ctx) request delta now occurred_at o x w.db w'

  pub reject_transaction-Refuses :
      (o : Option String) (x : Error) (w : World)
      → Refuses o w (reject_transaction ctx request delta now o x e w)
  unfolding reject_transaction
  reject_transaction-Refuses o x w = grind (arith, AuditEffects.create-Records)

  -- How an attempt on an account of this owner ends.
  abbrev pub Ends : World → Result ProcessTransactionResponse × World → Type 0
  Ends w (ok resp, w') = Done e (write_scoped ctx) request delta now occurred_at owner w.db resp w'
  Ends w (err x, w') =
      Refused e (write_scoped ctx) request delta now occurred_at (some owner) x w.db w'

  pub or_reject-Ends :
      (w : World) (r : Result ProcessTransactionResponse) (v : World)
      → Commits w (r, v)
      → Ends w (or_reject ctx request delta now (some owner) r e v)
  or_reject-Ends w (ok resp) v h = h
  or_reject-Ends w (err x) v h = refused_from _ _ (reject_transaction-Refuses (some owner) x v)
    where
      refused_from :
          (r : Result ProcessTransactionResponse) (w' : World)
          → Refuses (some owner) v (r, w')
          → Ends w (r, w')
      refused_from (ok resp) w' k = absurd k
      refused_from (err y) w' k = rw h at k
