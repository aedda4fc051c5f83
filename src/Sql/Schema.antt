-- ===== src/Sql/Schema.antt =====
-- The tables of pkg/postgres/migrations/0001_init.sql. Timestamps are TEXT, as there.
use loyalty_points_app.Prelude.{String, Option, List}
use loyalty_points_app.Prelude.Int.{ℤ}

pub record UserRow : Type 0 where
  pub id : String
  pub email : String
  pub password_hash : String
  pub role : String
  pub created_at : String
  pub token_version : ℤ

pub record AccountRow : Type 0 where
  pub id : String
  pub owner_id : String
  pub name : String
  pub balance : ℤ
  pub created_at : String

pub record TransactionRow : Type 0 where
  pub id : String
  pub ref : String
  pub account_id : String
  pub owner_id : String
  pub kind : String
  pub points : ℤ
  pub occurred_at : String
  pub recorded_at : String
  pub created_by : String

pub record AuditRow : Type 0 where
  pub id : ℤ
  pub transaction_ref : Option String
  pub account_id : Option String
  pub owner_id : Option String
  pub kind : Option String
  pub points : Option ℤ
  pub outcome : String
  pub reason : String
  pub user_id : String
  pub created_at : String

pub record Db : Type 0 where
  pub users : List UserRow
  pub accounts : List AccountRow
  pub transactions : List TransactionRow
  pub audit_entries : List AuditRow
