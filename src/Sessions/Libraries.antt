-- ===== src/Sessions/Libraries.antt =====
-- What the sessions take from libraries: encoding/json, go-jose, bcrypt, and `Unix` of package time.
use loyalty_points_app.Prelude.{ℕ, suc, String, Bool}
use loyalty_points_app.Prelude.Int.{ℤ}
use loyalty_points_app.Authentication.Context.{LoginClaim}
use loyalty_points_app.Sql.{Time, Result, Action}

-- `Jws` is go-jose's signed object, in the memory of the program.
pub record TokenLibrary (Jws : Type 0) : Type 0 where
  -- `json.Marshal` and `json.Unmarshal`, on a login claim
  pub marshal : LoginClaim → Result String
  pub unmarshal : String → Result LoginClaim
  -- `signer.Sign`, `signed.CompactSerialize`, `jose.ParseSigned` for RS256, `signed.Verify`
  pub sign : String → Result Jws
  pub compact_serialize : Jws → Result String
  pub parse_signed : String → Result Jws
  pub verify : Jws → Result String
  -- `t.Unix()`
  pub unix : Time → ℤ

-- bcrypt: a new hash has a new salt, so it depends on the number of the call.
pub record PasswordLibrary : Type 0 where
  pub generate_from_password : ℕ → String → Result String
  -- whether `CompareHashAndPassword` returns no error
  pub compare_hash_and_password : String → String → Bool

abbrev pub hash_password : PasswordLibrary → String → Action String
hash_password bcrypt password e w =
    (bcrypt.generate_from_password w.calls password, record w { calls = suc w.calls })
