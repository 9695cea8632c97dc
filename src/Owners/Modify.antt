-- ===== src/Owners/Modify.antt =====
-- `Crate::owner_add` and `owner_remove` of src/models/krate.rs, and `modify_owners` of
-- src/controllers/krate/owners.rs.
use cargo_website.Base.{
  ℕ, Bool, true, false, List, [], ◌∷◌, Result, ok, err, ◌>>=◌, if◌then◌else◌, any,
}
use cargo_website.Base.Text.{Text, text_eq}
use cargo_website.Owners.Tables.{
  User, Team, team, Owner, user_owner, team_owner, CrateOwner, Tables, Rights, nothing, publish,
  full, Error, only_publish_rights, no_rights, last_individual_owner, already_an_owner, Env, Added,
  team_added, login, owner_id, kind, users_owning, owners, insert_owner, delete_owner,
}
use cargo_website.Owners.Teams.{rights, find_or_create_by_login}
use cargo_website.Owners.Invitations.{invite}

abbrev pub team_row_of : ℕ → User → Team → CrateOwner
team_row_of krate req_user t = record {
  crate_id = krate;
  owner_id = t.id;
  created_by = req_user.id;
  owner_kind = team;
  deleted = false;
}

-- `User::owning(&krate)` is not empty.
unfoldable pub keep_an_owner : ℕ → Tables → Result Error (List Added × Tables)
keep_an_owner krate db = elim (users_owning krate db.users db.crate_owners) [
  | [] ↦ err last_individual_owner
  | _ ∷ _ ↦ ok ([], db)
]

abbrev pub only_full : Rights → Result Error Bool
only_full full = ok true
only_full publish = err only_publish_rights
only_full nothing = err no_rights

module _ (env : Env) where
  -- The two cases of `Crate::owner_add`: a user is invited, a team is an owner at once.
  unfoldable pub add_found : ℕ → User → Owner × Tables → Result Error (Added × Tables)
  add_found krate req_user (user_owner u, db) = invite env u req_user krate db
  add_found krate req_user (team_owner t, db) = ok (
    team_added t.login,
    record db { crate_owners = insert_owner (team_row_of krate req_user t) db.crate_owners },
  )

  unfoldable pub owner_add : ℕ → User → Text → Tables → Result Error (Added × Tables)
  owner_add krate req_user login db = do
    owner ← find_or_create_by_login env req_user login db
    add_found krate req_user owner

  unfoldable pub remove_found : ℕ → Owner × Tables → Tables
  remove_found krate (owner, db) = record db {
    crate_owners = delete_owner krate (owner_id owner) (kind owner) db.crate_owners;
  }

  unfoldable pub owner_remove : ℕ → User → Text → Tables → Result Error Tables
  owner_remove krate req_user login db = do
    found_owner ← find_or_create_by_login env req_user login db
    ok (remove_found krate found_owner)

  -- `login_test` for each of the owners.
  abbrev pub is_owner : Text → List Owner → Bool
  is_owner name os = any (λ o. text_eq (env.to_lowercase (login o)) (env.to_lowercase name)) os

  -- The loop over the logins to add. The owners are those from before the loop.
  unfoldable pub add_each :
      ℕ → User → List Owner → List Text → Tables → Result Error (List Added × Tables)
  add_each krate req_user os [] db = ok ([], db)
  add_each krate req_user os (name ∷ logins) db =
      let rest = λ (added : Added × Tables). (do
        more ← add_each krate req_user os logins added.1
        ok (added.0 ∷ more.0, more.1)) in
      if is_owner name os
      then err (already_an_owner name)
      else (do added ← owner_add krate req_user name db; rest added)

  unfoldable pub remove_each : ℕ → User → List Text → Tables → Result Error Tables
  remove_each krate req_user [] db = ok db
  remove_each krate req_user (name ∷ logins) db =
      let rest = λ (db' : Tables). remove_each krate req_user logins db' in
      do db' ← owner_remove krate req_user name db; rest db'

  -- The transaction of `modify_owners`, for the crate that the request names.
  unfoldable pub modify_owners :
      Bool → ℕ → User → List Text → Tables → Result Error (List Added × Tables)
  modify_owners add krate self logins db =
      let os = owners krate db in
      do
        r ← rights env self os
        allowed ← only_full r
        if add
            then add_each krate self os logins db
            else (do db' ← remove_each krate self logins db; keep_an_owner krate db')
