-- ===== src/Sql/Monad.antt =====
-- Actions: an environment, a state and an error. What was written stays written when an action
-- fails, so the state comes back beside the error too.
use loyalty_points_app.Prelude.{
  ℕ, suc, String, ◌≡◌, refl, ap, Bool, Option, none, some, concat, if◌then◌else◌, ◌⊎◌, inl, inr,
}
use loyalty_points_app.Prelude.Int.{ℤ, pos, eqb_ℤ, ltb_ℤ}
use loyalty_points_app.Errs.{Error, wrapped}
use loyalty_points_app.Sql.Schema.{Db}

pub data Result (A : Type 0) : Type 0 where
  ok : A → Result A
  err : Error → Result A

-- An instant, in nanoseconds from Go's zero time.
abbrev pub Time : Type 0
Time = ℤ

-- `t.IsZero()` and `t.Before(u)`
abbrev pub is_zero : Time → Bool
is_zero t = eqb_ℤ t (pos 0)

abbrev pub before : Time → Time → Bool
before t u = ltb_ℤ t u

-- What PostgreSQL reports of a statement that it rejects.
pub data SqlError : Type 0 where
  unique_violation foreign_key_violation check_violation out_of_range : SqlError
  driver : String → SqlError

-- What the program takes from outside: the readings of the clock and the random identifiers, by the
-- number of the call; the driver's failures, in the same way; and the texts of the libraries.
pub record Env : Type 0 where
  pub now : ℕ → Time
  pub uuid : ℕ → String
  pub fault : ℕ → Option String
  pub sql_text : SqlError → String
  pub format_time : Time → String
  pub parse_time : String → Result Time
  pub quote : String → String
  pub decimal : ℤ → String
  -- the order of the server's text columns
  pub collates : String → String → Bool

pub record World : Type 0 where
  pub db : Db
  -- how often the environment has been called
  pub calls : ℕ
  -- the identity column of `audit_entries`; a rollback does not return its values
  pub next_audit_id : ℕ

abbrev pub Action : Type 0 → Type 0
Action A = Env → World → Result A × World

infixl 5 ◌>>=◌ ◌>>◌
abbrev pub ◌>>=◌ : {A B : Type 0} → Action A → (A → Action B) → Action B
◌>>=◌ m f e w = let (r, w') = m e w in elim r [ ok a ↦ f a e w' | err x ↦ (err x, w') ]

-- What follows an action whose result is known.
pub >>=_ok :
    {A B : Type 0} (m : Action A) (f : A → Action B) (e : Env) (w v : World) (a : A)
    → m e w ≡ (ok a, v)
    → (m >>= f) e w ≡ f a e v
>>=_ok m f e w v a h = ap (λ z. ((λ _ _. z) >>= f) e w) h

abbrev pub ◌>>◌ : {A B : Type 0} → Action A → Action B → Action B
m >> k = m >>= λ _. k

module _ {A : Type 0} where
  abbrev pub pure : A → Action A
  pure a e w = (ok a, w)

  abbrev pub raise : Error → Action A
  raise x e w = (err x, w)

  abbrev pub lift : Result A → Action A
  lift r e w = (r, w)

  -- The result of an action as a value, for code that inspects `err`.
  abbrev pub try : Action A → Action (Result A)
  try m e w = let (r, w') = m e w in (ok r, w')

  -- `if` between two actions.
  abbrev pub branch : Bool → Action A → Action A → Action A
  branch b m n e w = if b then m e w else n e w

  -- `if err != nil { return fmt.Errorf("prefix: %w", err) }`
  abbrev pub wrap : String → Action A → Action A
  wrap p m e w =
      let (r, w') = m e w in elim r [ ok a ↦ (ok a, w') | err x ↦ (err (wrapped p x), w') ]

  -- An error, as a handler words it for its caller.
  abbrev pub reword : (Error → Error) → Action A → Action A
  reword f m e w = let (r, w') = m e w in elim r [ ok a ↦ (ok a, w') | err x ↦ (err (f x), w') ]

  pub Result-cases : (r : Result A) → ((a : A) × (r ≡ ok a)) ⊎ ((x : Error) × (r ≡ err x))
  Result-cases (ok a) = inl (a, refl)
  Result-cases (err x) = inr (x, refl)

-- The guard at the head of every method: `request.Validate()`, its error wrapped, and the rest.
abbrev pub check : {A : Type 0} → String → Option Error → Action A → Action A
check p o rest e w = elim o [ none ↦ rest e w | some x ↦ (err (wrapped p x), w) ]

-- `time.Now().UTC()` and `uuid.NewString()`
abbrev pub time_now : Action Time
time_now e w = (ok (e.now w.calls), record w { calls = suc w.calls })

abbrev pub new_uuid : Action String
new_uuid e w = (ok (e.uuid w.calls), record w { calls = suc w.calls })

abbrev pub ask : Action Env
ask e w = (ok e, w)

-- `nextval` of the identity column
abbrev pub next_audit_id : Action ℤ
next_audit_id e w =
    (ok (pos (suc w.next_audit_id)), record w { next_audit_id = suc w.next_audit_id })

-- `FormatTime`, by the standard library's layout
abbrev pub format_time : Time → Action String
format_time t e w = (ok (e.format_time t), w)

abbrev pub named_parse : Env → String → Result Time → Result Time
named_parse e s (ok t) = ok t
named_parse e s (err x) = err (wrapped (concat "could not parse timestamp " (e.quote s)) x)

-- `ParseTime`
abbrev pub parse_time : String → Action Time
parse_time s e w = (named_parse e s (e.parse_time s), w)
