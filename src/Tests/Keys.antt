-- ===== src/Tests/Keys.antt =====
-- Libraries for the sample: tokens for one claim, passwords, and HTTP over texts.
use loyalty_points_app.Prelude.{
  String, ◌≡◌, refl, Bool, Bool-cases, true, false, ◌&&◌, List, [], ◌∷◌, inl, inr, arith, eq_iff,
  ◌==◌, if◌then◌else◌,
}
use loyalty_points_app.Prelude.Int.{eqb_ℤ, eq_of_parts}
use loyalty_points_app.Errs.{plain}
use loyalty_points_app.Authentication.Context.{LoginClaim}
use loyalty_points_app.Sql.{ok, err}
use loyalty_points_app.Sessions.{TokenLibrary, PasswordLibrary}

abbrev same_list : List String → List String → Bool
same_list [] [] = true
same_list [] (y ∷ ys) = false
same_list (x ∷ xs) [] = false
same_list (x ∷ xs) (y ∷ ys) = x == y && same_list xs ys

same_list_lem : (xs ys : List String) → same_list xs ys ≡ true → xs ≡ ys
same_list_lem [] [] h = refl
same_list_lem [] (y ∷ ys) h = ground arith
same_list_lem (x ∷ xs) [] h = ground arith
same_list_lem (x ∷ xs) (y ∷ ys) h = ground (arith, eq_iff x y, same_list_lem xs ys)

abbrev same_claim : LoginClaim → LoginClaim → Bool
same_claim c d =
    c.user_id == d.user_id
    && c.email == d.email
    && c.last_name == d.last_name
    && c.role == d.role
    && eqb_ℤ c.expiration_time d.expiration_time
    && eqb_ℤ c.token_version d.token_version
    && same_list c.permissions d.permissions

same_claim_lem : (c d : LoginClaim) → same_claim c d ≡ true → c ≡ d
same_claim_lem c d h = ground (
  arith,
  eq_iff c.user_id d.user_id,
  eq_iff c.email d.email,
  eq_iff c.last_name d.last_name,
  eq_iff c.role d.role,
  eq_of_parts c.expiration_time d.expiration_time,
  eq_of_parts c.token_version d.token_version,
  same_list_lem c.permissions d.permissions,
)

-- Signs the one claim; the token is its payload.
abbrev pub tokens_for : LoginClaim → TokenLibrary String
tokens_for claim = record {
  marshal = λ c. if same_claim c claim then ok "token" else err (plain "another claim");
  unmarshal = λ s. if s == "token" then ok claim else err (plain "another payload");
  sign = λ s. ok s;
  compact_serialize = λ s. ok s;
  parse_signed = λ s. ok s;
  verify = λ s. ok s;
  unix = λ t. t;
}

pub tokens_for_reads :
    (claim c : LoginClaim) (payload : String)
    → (tokens_for claim).marshal c ≡ ok payload
    → (tokens_for claim).unmarshal payload ≡ ok c
tokens_for_reads claim c payload h = elim (Bool-cases (same_claim c claim)) [
  | inl same ↦ let equal = same_claim_lem c claim same in ground (arith, eq_iff payload "token")
  | inr other ↦ ground arith
]

abbrev pub passwords : PasswordLibrary
passwords = record {
  generate_from_password = λ n password. ok password;
  compare_hash_and_password = λ hash password. password == "secret";
}
