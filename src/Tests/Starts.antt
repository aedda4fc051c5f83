-- ===== src/Tests/Starts.antt =====
-- Two starts of the server.
use loyalty_points_app.Prelude.{String, ◌≡◌, refl, none, List, [], ◌∷◌, ◌++◌, ◌==◌, if◌then◌else◌}
use loyalty_points_app.Errs.{plain}
use loyalty_points_app.Sql.{ok, err}
use loyalty_points_app.Migrations.{Driver, Database, split_statements, migrate}
use loyalty_points_app.Migrations.Again.{migrate_again}

-- The tables are the statements that made them.
abbrev first_start : Driver (List String)
first_start = record {
  create_error = none;
  read_dir = ok ("0002" ∷ "0001" ∷ []);
  less = λ s t. s == "0001";
  count_error = λ v. none;
  read_file = λ v. ok (if v == "0001" then "a; -- first\nb;" else "c");
  trim_space =
      λ s. if s == " \nb" then "b" else if s == "\n" then "" else if s == "c\n" then "c" else s;
  begin_error = λ v. none;
  exec_statement = λ statement tables. ok (tables ++ statement ∷ []);
  record_error = λ v. none;
  commit_error = λ v. none;
}

-- Every statement and file fails.
abbrev second_start : Driver (List String)
second_start = record first_start {
  read_file = λ v. err (plain "gone");
  exec_statement = λ statement tables. err (plain "syntax error");
}

abbrev empty_database : Database (List String)
empty_database = record { schema = []; versions = [] }

first_migrations :
    migrate first_start empty_database
    ≡ (record { schema = "a" ∷ "b" ∷ "c" ∷ []; versions = "0001" ∷ "0002" ∷ [] }, none)
unfolding migrate split_statements
first_migrations = refl

migrate_again_example :
    migrate second_start (migrate first_start empty_database).0
    ≡ ((migrate first_start empty_database).0, none)
unfolding migrate split_statements
migrate_again_example =
    migrate_again first_start second_start empty_database ("0002" ∷ "0001" ∷ []) refl refl refl refl
      (λ v. refl) refl
