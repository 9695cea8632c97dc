-- ===== src/Accounts/Users.antt =====
-- `NewUser::create_or_update` of src/models/user.rs.
use cargo_website.Base.{
  ℕ, ◌+◌, Bool, ◌&&◌, [], ◌∷◌, ◌++◌, map, Option, none, some, Result, ok, err, if◌then◌else◌, find,
}
use cargo_website.Base.Int.{ℤ, pos, ltb_ℤ}
use cargo_website.Base.Text.{Text}
use cargo_website.Updating.{equal_ℤ}
use cargo_website.Accounts.{User, NewUser, State, Error, Outside, upsert_user, insert_email}
use cargo_website.Accounts.Mails.{send_user_confirm}
use cargo_website.Accounts.Rows.{email_of, insert_row}

-- The partial index: users whose id at GitHub is unknown have -1.
unfoldable pub same_account : ℤ → User → Bool
same_account gh_id u = ltb_ℤ (pos 0) gh_id && equal_ℤ u.gh_id gh_id

-- What the conflict sets.
unfoldable pub refreshed : NewUser → User → User
refreshed self u = record u {
  gh_login = self.gh_login;
  name = self.name;
  gh_avatar = self.gh_avatar;
  gh_access_token = self.gh_access_token;
}

unfoldable pub inserted : NewUser → ℕ → User
inserted self id = record {
  id = id;
  gh_access_token = self.gh_access_token;
  gh_login = self.gh_login;
  name = self.name;
  gh_avatar = self.gh_avatar;
  gh_id = self.gh_id;
  account_lock_reason = none;
  account_lock_until = none;
}

unfoldable pub upsert : NewUser → State → User × State
unfolding refreshed inserted same_account
upsert self s = elim (find (same_account self.gh_id) s.users) [
  | some u ↦ (
    refreshed self u,
    record s {
      users = map (λ v. if same_account self.gh_id v then refreshed self v else v) s.users;
    },
  )
  | none ↦ (
    inserted self s.next_user_id,
    record s {
      users = s.users ++ inserted self s.next_user_id ∷ [];
      next_user_id = s.next_user_id + 1;
    },
  )
]

-- The address is stored if the user has none, and is asked to be confirmed; that the mail is not
-- sent is no error.
unfoldable pub with_email : Outside → User → Option Text → State → Result Error State
unfolding insert_row send_user_confirm
with_email out user none s = ok s
with_email out user (some email) s = elim (out.refuses insert_email) [
  | some e ↦ err e
  | none ↦ elim (email_of user.id s) [
    | some _ ↦ ok s
    | none ↦
        ok
          (send_user_confirm out
            (record { to = email; user_name = user.gh_login; token = out.random_string })
            (insert_row out user.id email s)).1
  ]
]

-- The transaction: nothing is left behind by one that fails.
unfoldable pub create_or_update :
    Outside → NewUser → Option Text → State → Result Error User × State
unfolding upsert with_email
create_or_update out self email s = elim (out.refuses upsert_user) [
  | some e ↦ (err e, s)
  | none ↦
      let saved = upsert self s in
      elim (with_email out saved.0 email saved.1) [ ok s' ↦ (ok saved.0, s') | err e ↦ (err e, s) ]
]
