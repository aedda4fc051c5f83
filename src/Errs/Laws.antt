-- ===== src/Errs/Laws.antt =====
-- Which sentinels a validation error answers to.
use loyalty_points_app.Prelude.{String, ◌≡◌, refl, false, none, some, List, [], ◌∷◌, arith}
use loyalty_points_app.Errs.{
  Error, Sentinel, sentinel, validation_error, message_error, wrapped, wrapped_two, plain, is,
  as_validation, same_sentinel, invalid_argument, new_validation_error,
}

pub is-new_validation_error :
    (rs : List String) (x : Error) (s : Sentinel)
    → new_validation_error rs ≡ some x
    → is x s ≡ same_sentinel invalid_argument s
is-new_validation_error [] x s h = cc
is-new_validation_error (r ∷ rs) x s h = ground arith

-- A validation error along the chain makes an error an invalid argument.
pub as_validation-is : (x : Error) → is x invalid_argument ≡ false → as_validation x ≡ none
as_validation-is (sentinel s) h = refl
as_validation-is (validation_error rs) h = ground arith
as_validation-is (message_error x m) h = as_validation-is x h
as_validation-is (wrapped m x) h = as_validation-is x h
as_validation-is (wrapped_two m x y) h = ground (arith, as_validation-is x, as_validation-is y)
as_validation-is (plain m) h = refl
