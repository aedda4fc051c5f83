-- ===== src/Wallets/Valid.antt =====
-- What a valid request gives the repositories' own checks.
use loyalty_points_app.Prelude.{
  String, ◌≡◌, refl, true, false, ◌||◌, Option, none, inl, inr, Bool-cases, arith, ◌==◌,
}
use loyalty_points_app.Prelude.Int.{pos, neg_parts, eqb_ℤ}
use loyalty_points_app.Sql.{Time}
use loyalty_points_app.Accounts.{validate_get_by_id, validate_update_account_balance}
use loyalty_points_app.Audits as Audits
use loyalty_points_app.Audits.{outcome_accepted}
use loyalty_points_app.Wallets.Types.{ProcessTransactionRequest, kind_earn, kind_spend}
use loyalty_points_app.Wallets.Validations as Validations
use loyalty_points_app.Wallets.Validations.{validate_process}
use loyalty_points_app.Wallets.Service.{signed_delta, build_audit_entry}

-- The conditions that `Validate` tests.
pub record IsSound (r : ProcessTransactionRequest) : Type 0 where
  pub ref : (r.ref == "") ≡ false
  pub account : (r.account_id == "") ≡ false
  pub user : (r.user_id == "") ≡ false
  pub kind : (r.kind == kind_earn || r.kind == kind_spend) ≡ true
  pub delta : eqb_ℤ (signed_delta r.kind r.points) (pos 0) ≡ false

pub validate_process-IsSound :
    (r : ProcessTransactionRequest) → validate_process r ≡ none → IsSound r
unfolding validate_process signed_delta
validate_process-IsSound r h = record {
  ref = ground arith;
  account = ground arith;
  user = ground arith;
  kind = ground arith;
  delta = elim (Bool-cases (r.kind == kind_spend)) [
    | inl spend ↦ rw spend (ground (arith, neg_parts r.points))
    | inr other ↦ rw other (ground arith)
  ];
}

module _ (r : ProcessTransactionRequest) (s : IsSound r) where
  pub validate_get_by_id-none :
      validate_get_by_id (record { account_id = r.account_id; user_id = r.user_id }) ≡ none
  unfolding validate_get_by_id
  validate_get_by_id-none = rw (s.account, s.user) refl

  pub validate_update-none :
      (owner : String)
      → (owner == "") ≡ false
      → validate_update_account_balance (record {
        account_id = r.account_id;
        delta = signed_delta r.kind r.points;
        user_id = owner;
      })
        ≡ none
  unfolding validate_update_account_balance
  validate_update-none owner known = rw (s.account, s.delta, known) refl

  pub validate_create-none :
      (owner : String) (now occurred_at : Time)
      → Validations.validate_create (record {
        transaction = record {
          id = "";
          ref = r.ref;
          account_id = r.account_id;
          owner_id = owner;
          kind = r.kind;
          points = signed_delta r.kind r.points;
          occurred_at = occurred_at;
          recorded_at = now;
          created_by = r.user_id;
        };
      })
        ≡ none
  unfolding Validations.validate_create
  validate_create-none owner now occurred_at = rw (s.ref, s.account, s.user, s.kind, s.delta) refl

  pub validate_audit-none :
      (owner : Option String) (now : Time)
      → Audits.validate_create
          (build_audit_entry r (signed_delta r.kind r.points) owner outcome_accepted "ok" now)
        ≡ none
  unfolding Audits.validate_create
  validate_audit-none owner now = rw s.user refl
