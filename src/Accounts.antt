-- ===== src/Accounts.antt =====
-- Users and their email addresses: src/models/user.rs, src/models/email.rs, src/email.rs,
-- src/controllers/user/me.rs and src/controllers/user/session.rs. The triggers on the table `emails`
-- are those of its migrations. What the server answers, what the mail library does and the string
-- that the database draws at random are the fields of `Outside`, parameters.
mod Mails
mod Rows
mod Users
mod Tests
mod Saved
pub mod LoggedIn
mod Sessions
mod Sound
mod Each
pub mod Confirmed
mod Written
mod Kept
mod Belongs
mod Routes
mod Me
use cargo_website.Base.{ℕ, Bool, List, Option, Result, ok, err}
use cargo_website.Base.Int.{ℤ}
use cargo_website.Base.Text.{Text}

pub record User : Type 0 where
  pub id : ℕ
  pub gh_access_token : Text
  pub gh_login : Text
  pub name : Option Text
  pub gh_avatar : Option Text
  pub gh_id : ℤ
  pub account_lock_reason : Option Text
  pub account_lock_until : Option ℕ

pub record NewUser : Type 0 where
  pub gh_id : ℤ
  pub gh_login : Text
  pub name : Option Text
  pub gh_avatar : Option Text
  pub gh_access_token : Text

pub record Email : Type 0 where
  pub id : ℕ
  pub user_id : ℕ
  pub email : Text
  pub verified : Bool
  pub token : Text
  pub token_generated_at : Option ℕ

-- A confirmation that was handed to the mail library.
pub record Mail : Type 0 where
  pub to : Text
  pub user_name : Text
  pub token : Text

pub record State : Type 0 where
  pub users : List User
  pub next_user_id : ℕ
  pub emails : List Email
  pub next_email_id : ℕ
  pub mails : List Mail

pub data Error : Type 0 where
  query_failed read_only invalid_address sending_failed panicked : Error
  wrong_user invalid_request empty_email token_failed email_not_found unknown_token
        invalid_user_id :
      Error

-- The statements that the server may refuse.
pub data Query : Type 0 where
  upsert_user insert_email upsert_email verify_email regenerate_token : Query

-- `random_string` is what the database draws if a token is to be generated.
pub record Outside : Type 0 where
  pub now : ℕ
  pub random_string : Text
  pub refuses : Query → Option Error
  pub is_address : Text → Bool
  pub delivers : Bool
  pub trim : Text → Text
