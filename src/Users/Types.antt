-- ===== src/Users/Types.antt =====
-- pkg/users/user.go and userRepository.go. A response with one field is that field.
use loyalty_points_app.Prelude.{String}
use loyalty_points_app.Prelude.Int.{ℤ}
use loyalty_points_app.Sql.{Time}

pub record User : Type 0 where
  pub id : String
  pub email : String
  pub password_hash : String
  pub role : String
  pub created_at : Time
  pub token_version : ℤ

pub record CreateUserRequest : Type 0 where
  pub user : User

pub record GetUserByIdRequest : Type 0 where
  pub id : String
  pub user_id : String

pub record GetUserByEmailRequest : Type 0 where
  pub email : String
  pub user_id : String

pub record GetTokenVersionRequest : Type 0 where
  pub user_id : String

pub record IncrementTokenVersionRequest : Type 0 where
  pub user_id : String
