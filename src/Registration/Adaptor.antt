-- ===== src/Registration/Adaptor.antt =====
-- pkg/users/userRegistrationServiceJSONRPCAdaptor.go.
use loyalty_points_app.Prelude.{if◌then◌else◌}
use loyalty_points_app.Errs.{Error, is, with_message, already_exists, invalid_argument, internal}
use loyalty_points_app.Authentication.Context.{Context}
use loyalty_points_app.Sql.{Action, reword}
use loyalty_points_app.Sessions.{TokenLibrary, PasswordLibrary}
use loyalty_points_app.Registration.Types.{RegisterRequest, RegisterResponse}
use loyalty_points_app.Registration.Service.{register}

abbrev pub registration_error : Error → Error
registration_error x =
    if is x already_exists
    then with_message already_exists "an account with this email already exists"
    else if is x invalid_argument
    then x
    else with_message internal "could not register user"

-- The handler's request has the fields of the service's.
unfoldable pub register_handler :
    {Jws : Type 0}
    → TokenLibrary Jws
    → PasswordLibrary
    → Context
    → RegisterRequest
    → Action RegisterResponse
register_handler jose bcrypt ctx request =
    reword registration_error (register jose bcrypt ctx request)
