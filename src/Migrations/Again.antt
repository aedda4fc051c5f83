-- ===== src/Migrations/Again.antt =====
-- The migrations of a second start.
use loyalty_points_app.Prelude.{
  ◌≡◌, refl, String, true, Option, none, some, List, [], ◌∷◌, ◌++◌, All, Option-cases, sym, ap, ◌∙◌,
  inl, inr, arith, eq_iff,
}
use loyalty_points_app.Errs.{Error}
use loyalty_points_app.Sql.{ok}
use loyalty_points_app.Migrations.Run.{
  Database, Driver, sort_entries, is_applied, or_stop, migrate_one, migrate_all, migrate,
}

is_applied-last : (v : String) (xs : List String) → is_applied v (xs ++ v ∷ []) ≡ true
unfolding is_applied
is_applied-last v [] = ground (arith, eq_iff v v)
is_applied-last v (x ∷ xs) = ground (arith, is_applied-last v xs)

is_applied-kept :
    (u v : String) (xs : List String) → is_applied u xs ≡ true → is_applied u (xs ++ v ∷ []) ≡ true
unfolding is_applied
is_applied-kept u v [] h = ground arith
is_applied-kept u v (x ∷ xs) h = ground (arith, is_applied-kept u v xs)

module _ {S : Type 0} (d : Driver S) where
  migrate_one-records :
      (v u : String) (db : Database S)
      → (migrate_one d v db).1 ≡ none
      → (is_applied v (migrate_one d v db).0.versions ≡ true)
        × (is_applied u db.versions ≡ true → is_applied u (migrate_one d v db).0.versions ≡ true)
  unfolding migrate_one
  migrate_one-records v u db h =
      ground (arith, is_applied-last v db.versions, is_applied-kept u v db.versions)

  or_stop_lem :
      (z : Database S × Option Error) (k : Database S → Database S × Option Error)
      → (or_stop d z k).1 ≡ none
      → (z.1 ≡ none) × (or_stop d z k ≡ k z.0)
  or_stop_lem (db, none) k h = (refl, refl)
  or_stop_lem (db, some x) k h = ground arith

  -- A loop without an error has come to its next turn, without an error.
  migrate_all-turns :
      (v : String) (vs : List String) (db : Database S)
      → (migrate_all d (v ∷ vs) db).1 ≡ none
      → ((migrate_one d v db).1 ≡ none)
        × (migrate_all d (v ∷ vs) db ≡ migrate_all d vs (migrate_one d v db).0)
  unfolding migrate_all
  migrate_all-turns v vs db h = or_stop_lem (migrate_one d v db) (migrate_all d vs) h

  migrate_all-keeps :
      (vs : List String) (u : String) (db : Database S)
      → (migrate_all d vs db).1 ≡ none
      → is_applied u db.versions ≡ true
      → is_applied u (migrate_all d vs db).0.versions ≡ true
  migrate_all-keeps [] u db h k = unfold migrate_all in k
  migrate_all-keeps (v ∷ vs) u db h k =
      let turned = migrate_all-turns v vs db h in
      let records = migrate_one-records v u db turned.0 in
      rw turned.1 (migrate_all-keeps vs u (migrate_one d v db).0 (rw turned.1 at h) (records.1 k))

  migrate_all-records :
      (vs : List String) (db : Database S) (z : Database S × Option Error)
      → migrate_all d vs db ≡ z
      → z.1 ≡ none
      → All (λ v. is_applied v z.0.versions ≡ true) vs
  migrate_all-records [] db z ran h = tt
  migrate_all-records (v ∷ vs) db z ran h =
      let turned = migrate_all-turns v vs db (ap (λ y. y.1) ran ∙ h) in
      let next : Database S = (migrate_one d v db).0 in
      let rest : migrate_all d vs next ≡ z = sym turned.1 ∙ ran in
      (
        ap (λ y. is_applied v y.0.versions) (sym rest)
            ∙ migrate_all-keeps vs v next (ap (λ y. y.1) rest ∙ h)
                (migrate_one-records v v db turned.0).0,
        migrate_all-records vs next z rest h,
      )

  migrate_all-again :
      (vs : List String) (db : Database S)
      → ((v : String) → d.count_error v ≡ none)
      → All (λ v. is_applied v db.versions ≡ true) vs
      → migrate_all d vs db ≡ (db, none)
  unfolding migrate_all
  migrate_all-again [] db counts h = refl
  migrate_all-again (v ∷ vs) db counts h = rw (counts v, h.0) (migrate_all-again vs db counts h.1)

-- A start after one whose migrations succeeded changes nothing and succeeds, whatever a statement or
-- a file would now do: where it finds the files of that run in their order, and neither the CREATE
-- TABLE nor a query of the applied versions fails.
pub migrate_again :
    {S : Type 0} (d d' : Driver S) (db : Database S) (entries : List String)
    → d.read_dir ≡ ok entries
    → d'.read_dir ≡ ok entries
    → d'.less ≡ d.less
    → d'.create_error ≡ none
    → ((v : String) → d'.count_error v ≡ none)
    → (migrate d db).1 ≡ none
    → migrate d' (migrate d db).0 ≡ ((migrate d db).0, none)
unfolding migrate
migrate_again d d' db entries files files' order creates counts done =
    elim (Option-cases d.create_error) [
      | inl made ↦
          let vs = sort_entries d.less entries in
          rw (made, files, creates, files', order)
            (migrate_all-again d' vs (migrate_all d vs db).0 counts
              (migrate_all-records d vs db (migrate_all d vs db) refl (rw (made, files) at done)))
      | inr (x, broken) ↦ ground arith
    ]
