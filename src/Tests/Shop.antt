-- ===== src/Tests/Shop.antt =====
-- The sample: the tables, the callers and an environment whose database always answers.
use loyalty_points_app.Prelude.{
  String, refl, false, none, some, List, [], ◌∷◌, arith, ◌==◌, if◌then◌else◌,
}
use loyalty_points_app.Prelude.Int.{ℤ, pos, ◌+ℤ◌, in_int64}
use loyalty_points_app.Authentication.Context.{LoginClaim, Context}
use loyalty_points_app.Authorization.{
  role_member, role_admin, member_permissions, admin_permissions,
}
use loyalty_points_app.Sql.Schema.{UserRow, AccountRow, TransactionRow, Db}
use loyalty_points_app.Sql.{Env, World, ok}
use loyalty_points_app.Accounts.{has_account, has_user}
use loyalty_points_app.Wallets.{ProcessTransactionRequest, has_ref, has_id}
use loyalty_points_app.Wallets.Drift.{ledger_sum}
use loyalty_points_app.Wallets.Invariant.{IsValid, IsExplained}

abbrev pub env : Env
env = record {
  now = λ n. pos 1000;
  uuid = λ n. "t2";
  fault = λ n. none;
  sql_text = λ x. "sql error";
  format_time = λ t. "2026-01-02T00:00:00Z";
  parse_time = λ s. ok (pos 1000);
  quote = λ s. s;
  decimal = λ n. "n";
  collates = λ s t. s == t;
}

abbrev pub claim_of : String → String → List String → LoginClaim
claim_of user_id role permissions = record {
  user_id = user_id;
  email = "";
  last_name = "";
  role = role;
  permissions = permissions;
  expiration_time = pos 5000;
  token_version = pos 0;
}

abbrev pub ann_claim : LoginClaim
ann_claim = claim_of "ann" role_member member_permissions

abbrev pub ann_context : Context
ann_context = record { claim = some ann_claim; in_tx = false }

abbrev pub admin_context : Context
admin_context = record {
  claim = some (claim_of "root" role_admin admin_permissions);
  in_tx = false;
}

abbrev pub user_row : String → UserRow
user_row id = record {
  id = id;
  email = id;
  password_hash = "";
  role = role_member;
  created_at = "2026-01-01T00:00:00Z";
  token_version = pos 0;
}

abbrev pub account_row : String → String → ℤ → AccountRow
account_row id owner balance = record {
  id = id;
  owner_id = owner;
  name = "Primary Wallet";
  balance = balance;
  created_at = "2026-01-01T00:00:00Z";
}

abbrev pub ann_account : AccountRow
ann_account = account_row "a1" "ann" (pos 100)

abbrev pub bob_account : AccountRow
bob_account = account_row "a2" "bob" (pos 7)

abbrev pub first_posting : TransactionRow
first_posting = record {
  id = "t1";
  ref = "r1";
  account_id = "a1";
  owner_id = "ann";
  kind = "earn";
  points = pos 100;
  occurred_at = "2026-01-01T00:00:00Z";
  recorded_at = "2026-01-01T00:00:00Z";
  created_by = "ann";
}

abbrev pub shop_db : Db
shop_db = record {
  users = user_row "ann" ∷ user_row "bob" ∷ [];
  accounts = ann_account ∷ bob_account ∷ [];
  transactions = first_posting ∷ [];
  audit_entries = [];
}

abbrev pub shop : World
shop = record { db = shop_db; calls = 0; next_audit_id = 0 }

abbrev pub request_of : String → String → String → ℤ → ℤ → ProcessTransactionRequest
request_of ref account_id kind points occurred_at = record {
  user_id = "ann";
  ref = ref;
  account_id = account_id;
  kind = kind;
  points = points;
  occurred_at = occurred_at;
}

-- Ann spends thirty points.
abbrev pub spend_30 : ProcessTransactionRequest
spend_30 = request_of "r2" "a1" "spend" (pos 30) (pos 900)

-- The same ref again, for another amount.
abbrev pub earn_9_again : ProcessTransactionRequest
earn_9_again = request_of "r2" "a1" "earn" (pos 9) (pos 950)

-- Points that are not in the ledger.
abbrev pub unposted : String → ℤ
unposted id = if id == "a2" then pos 7 else pos 0

pub shop_db-IsValid : IsValid shop_db
unfolding has_account has_user has_ref has_id in_int64
shop_db-IsValid = record {
  distinct_ids = (refl, (refl, tt));
  funded = ((omega arith, refl), ((omega arith, refl), tt));
  owned = (refl, (refl, tt));
  distinct_refs = (refl, refl, tt);
  posted = (refl, tt);
}

pub shop_db-IsExplained : IsExplained unposted shop_db
unfolding ledger_sum ◌+ℤ◌
shop_db-IsExplained = (refl, (refl, tt))
