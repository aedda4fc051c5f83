-- ===== src/Migrations/Run.antt =====
-- `Migrate` of pkg/postgres/migrate.go.
use loyalty_points_app.Prelude.{
  String, Bool, Option, none, some, List, [], ◌∷◌, ◌++◌, any, concat, ◌==◌, if◌then◌else◌,
}
use loyalty_points_app.Errs.{Error, wrapped}
use loyalty_points_app.Sql.{Result, ok, err}
use loyalty_points_app.Migrations.Statements.{split_statements}

-- The tables of the program are `schema`; `versions` is the table schema_migrations.
pub record Database (S : Type 0) : Type 0 where
  pub schema : S
  pub versions : List String

-- The driver, the embedded files and package strings in one run, which asks each of them at most once
-- for a version.
pub record Driver (S : Type 0) : Type 0 where
  pub create_error : Option Error
  pub read_dir : Result (List String)
  -- the order of strings
  pub less : String → String → Bool
  pub count_error : String → Option Error
  pub read_file : String → Result String
  pub trim_space : String → String
  pub begin_error : String → Option Error
  -- a statement on the tables
  pub exec_statement : String → S → Result S
  pub record_error : String → Option Error
  pub commit_error : String → Option Error

abbrev pub insert_entry : (String → String → Bool) → String → List String → List String
insert_entry less x [] = x ∷ []
insert_entry less x (y ∷ ys) =
    let rest = insert_entry less x ys in if less y x then y ∷ rest else x ∷ y ∷ ys

-- `sort.Slice`
unfoldable pub sort_entries : (String → String → Bool) → List String → List String
sort_entries less [] = []
sort_entries less (x ∷ xs) = insert_entry less x (sort_entries less xs)

-- `SELECT COUNT(*) …`, as whether it is above zero.
unfoldable pub is_applied : String → List String → Bool
is_applied version versions = any (λ v. v == version) versions

abbrev pub version_error : String → String → Error → Error
version_error message version x = wrapped (concat message version) x

module _ {S : Type 0} (d : Driver S) where
  -- The statements of one file, up to the first that fails.
  abbrev pub and_then : Result S → (S → Result S) → Result S
  and_then (err x) k = err x
  and_then (ok s) k = k s

  abbrev pub exec_all : List String → S → Result S
  exec_all [] s = ok s
  exec_all (statement ∷ statements) s =
      and_then (d.exec_statement statement s) (exec_all statements)

  -- The end of the transaction; a rollback is the database as it was.
  abbrev pub committed : String → Database S → Database S → Option Error → Database S × Option Error
  committed version db next (some x) =
      (db, some (version_error "could not commit migration " version x))
  committed version db next none = (next, none)

  abbrev pub record_version : String → Database S → S → Option Error → Database S × Option Error
  record_version version db s (some x) =
      (db, some (version_error "could not record migration " version x))
  record_version version db s none =
      committed version db (record { schema = s; versions = db.versions ++ version ∷ [] })
        (d.commit_error version)

  abbrev pub applied : String → Database S → Result S → Database S × Option Error
  applied version db (err x) = (db, some (version_error "could not apply migration " version x))
  applied version db (ok s) = record_version version db s (d.record_error version)

  abbrev pub begun : String → Database S → String → Option Error → Database S × Option Error
  begun version db contents (some x) =
      (db, some (version_error "could not begin transaction for migration " version x))
  begun version db contents none =
      applied version db (exec_all (split_statements d.trim_space contents) db.schema)

  abbrev pub with_file : String → Database S → Result String → Database S × Option Error
  with_file version db (err x) = (db, some (version_error "could not read migration " version x))
  with_file version db (ok contents) = begun version db contents (d.begin_error version)

  abbrev pub counted : String → Database S → Option Error → Database S × Option Error
  counted version db (some x) = (db, some (version_error "could not check migration " version x))
  counted version db none =
      if is_applied version db.versions
      then (db, none)
      else with_file version db (d.read_file version)

  -- One turn of the loop.
  unfoldable pub migrate_one : String → Database S → Database S × Option Error
  unfolding is_applied
  migrate_one version db = counted version db (d.count_error version)

  abbrev pub or_stop :
      Database S × Option Error
      → (Database S → Database S × Option Error)
      → Database S × Option Error
  or_stop (db, some x) k = (db, some x)
  or_stop (db, none) k = k db

  unfoldable pub migrate_all : List String → Database S → Database S × Option Error
  unfolding migrate_one
  migrate_all [] db = (db, none)
  migrate_all (version ∷ versions) db = or_stop (migrate_one version db) (migrate_all versions)

  abbrev pub with_entries : Result (List String) → Database S → Database S × Option Error
  with_entries (err x) db = (db, some (wrapped "could not read embedded migrations" x))
  with_entries (ok entries) db = migrate_all (sort_entries d.less entries) db

  abbrev pub created : Option Error → Database S → Database S × Option Error
  created (some x) db = (db, some (wrapped "could not create schema_migrations table" x))
  created none db = with_entries d.read_dir db

  unfoldable pub migrate : Database S → Database S × Option Error
  unfolding migrate_all sort_entries
  migrate db = created d.create_error db
