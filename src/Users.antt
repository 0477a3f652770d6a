-- ===== src/Users.antt =====
-- The users: what their deletion does.
pub mod Teardown
pub mod Names
use code_server_spawner.Common.{ℕ, String, Option}

-- `User`, the columns that the modelled code reads
pub record User : Type 0 where
  pub id : ℕ
  pub username : Option String
