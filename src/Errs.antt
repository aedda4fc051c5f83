-- ===== src/Errs.antt =====
-- pkg/errs/errors.go: the error values of the program, with the parts of the standard `errors` and
-- `fmt` packages that read them.
pub mod Laws
use loyalty_points_app.Prelude.{
  String, Bool, true, false, ◌||◌, Option, none, some, List, [], ◌∷◌, concat, if◌then◌else◌,
}

pub data Sentinel : Type 0 where
  not_found already_exists duplicate_ref insufficient_balance : Sentinel
  unauthorized forbidden invalid_argument internal : Sentinel

pub data Error : Type 0 where
  -- the package's variables
  sentinel : Sentinel → Error
  -- `ValidationError`
  validation_error : List String → Error
  -- `messageError`, built by `WithMessage`
  message_error : Error → String → Error
  -- `fmt.Errorf("prefix: %w", err)`
  wrapped : String → Error → Error
  -- `fmt.Errorf("prefix: %w (original error: %w)", err, original)`
  wrapped_two : String → Error → Error → Error
  -- an error of no kind of this package, such as a driver's, by its text
  plain : String → Error

abbrev pub same_sentinel : Sentinel → Sentinel → Bool
same_sentinel not_found not_found = true
same_sentinel already_exists already_exists = true
same_sentinel duplicate_ref duplicate_ref = true
same_sentinel insufficient_balance insufficient_balance = true
same_sentinel unauthorized unauthorized = true
same_sentinel forbidden forbidden = true
same_sentinel invalid_argument invalid_argument = true
same_sentinel internal internal = true
same_sentinel _ _ = false

-- `errors.Is(err, sentinel)`: along the chain of `Unwrap`.
abbrev pub is : Error → Sentinel → Bool
is (sentinel a) s = same_sentinel a s
is (validation_error _) s = same_sentinel invalid_argument s
is (message_error e _) s = is e s
is (wrapped _ e) s = is e s
is (wrapped_two _ e f) s = is e s || is f s
is (plain _) s = false

abbrev pub or_else : Option (List String) → Option (List String) → Option (List String)
or_else (some rs) _ = some rs
or_else none o = o

-- `errors.As(err, &validation)`: the reasons of the first `ValidationError` along the chain.
abbrev pub as_validation : Error → Option (List String)
as_validation (sentinel _) = none
as_validation (validation_error rs) = some rs
as_validation (message_error e _) = as_validation e
as_validation (wrapped _ e) = as_validation e
as_validation (wrapped_two _ e f) = or_else (as_validation e) (as_validation f)
as_validation (plain _) = none

-- `strings.Join(reasons, "; ")`
abbrev pub join_reasons : List String → String
join_reasons [] = ""
join_reasons (r ∷ []) = r
join_reasons (r ∷ s ∷ rs) = concat r (concat "; " (join_reasons (s ∷ rs)))

abbrev pub sentinel_text : Sentinel → String
sentinel_text not_found = "not found"
sentinel_text already_exists = "already exists"
sentinel_text duplicate_ref = "duplicate ref"
sentinel_text insufficient_balance = "insufficient balance"
sentinel_text unauthorized = "unauthorized"
sentinel_text forbidden = "forbidden"
sentinel_text invalid_argument = "invalid argument"
sentinel_text internal = "internal error"

-- `err.Error()`
unfoldable pub text : Error → String
text (sentinel s) = sentinel_text s
text (validation_error rs) = concat "validation failed: " (join_reasons rs)
text (message_error _ m) = m
text (wrapped m e) = concat m (concat ": " (text e))
text (wrapped_two m e f) =
    concat m (concat ": " (concat (text e) (concat " (original error: " (concat (text f) ")"))))
text (plain m) = m

-- `NewValidationError`: no error where there is no reason.
abbrev pub new_validation_error : List String → Option Error
new_validation_error [] = none
new_validation_error (r ∷ rs) = some (validation_error (r ∷ rs))

-- `WithMessage`
abbrev pub with_message : Sentinel → String → Error
with_message s m = message_error (sentinel s) m

-- `if cond { reasons = append(reasons, reason) }`, with the reasons that follow.
abbrev pub reason_if : Bool → String → List String → List String
reason_if b r rs = if b then r ∷ rs else rs
