-- ===== src/Users.antt =====
-- core/users/user.go: the rows of the users.
pub mod Creation
use arbokcore.Prelude.{ℕ, Text, text}

pub record User : Type 0 where
  pub id : Text
  pub user_type : Text
  pub email : Text
  pub hashed_password : Text
  pub created_at : ℕ
  pub updated_at : ℕ

abbrev pub user_type_normal : Text
user_type_normal = text "normal"
