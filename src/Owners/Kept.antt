-- ===== src/Owners/Kept.antt =====
-- What naming an owner by a login leaves as it is: users, and who owns what.
use cargo_website.Base.{
  ◌≡◌, refl, Bool, true, false, List, [], ◌∷◌, Result, ok, err, not, ◌>>=◌, if◌then◌else◌, find,
  inl, inr, Option-cases,
}
use cargo_website.Base.Text.{Text, codes, text_eq, contains, split}
use cargo_website.Owners.Tables.{
  User, Team, team_owner, Tables, Error, Env, found, require, latest, user_not_found,
  team_not_found, not_a_member, github_failed,
}
use cargo_website.Owners.Teams.{
  find_or_create_by_login, create_or_update, create_or_update_team, create_or_update_github_team,
  matching_users, with_team, team_row, is_allowed_char, team_with_gh_id_contains_user,
}

pub record IsKept (db db' : Tables) : Type 0 where
  pub users : db'.users ≡ db.users
  pub crate_owners : db'.crate_owners ≡ db.crate_owners

-- An operation that succeeds keeps these tables.
pub data Keeps {ℓ} {A : Type ℓ} (db : Tables) : Result Error (A × Tables) → Type ℓ where
  kept : (a : A) (db' : Tables) → IsKept db db' → Keeps db (ok (a, db'))
  refused : (e : Error) → Keeps db (err e)

Keeps-bind {ℓ κ} :
    {A : Type ℓ} {B : Type κ} (db : Tables) (m : Result Error A) (f : A → Result Error (B × Tables))
    → ((a : A) → Keeps db (f a))
    → Keeps db (m >>= f)
Keeps-bind db (ok a) f h = h a
Keeps-bind db (err e) f h = refused e

Keeps-if {ℓ} :
    {A : Type ℓ} (db : Tables) (b : Bool) (m n : Result Error (A × Tables))
    → Keeps db m
    → Keeps db n
    → Keeps db (if b then m else n)
Keeps-if db true m n h k = h
Keeps-if db false m n h k = k

create_or_update-IsKept : (new : Team) (db : Tables) → IsKept db (create_or_update new db).1
unfolding create_or_update
create_or_update-IsKept new db = elim (Option-cases (team_row new db.teams)) [
  | inl e ↦ rw (create_or_update, e) (record { users = refl; crate_owners = refl })
  | inr (t, e) ↦ rw (create_or_update, e) (record { users = refl; crate_owners = refl })
]

module _ (env : Env) (req_user : User) (db : Tables) where
  github_team-Keeps :
      (login org_name team_name : Text)
      → Keeps db (create_or_update_github_team env login org_name team_name req_user db)
  unfolding create_or_update_github_team
  github_team-Keeps login org_name team_name =
      elim (Option-cases (find (λ c. not (is_allowed_char c)) org_name)) [
        | inl e ↦
            rw (create_or_update_github_team, e)
              (Keeps-bind db
                (found team_not_found
                  (env.team_by_name org_name team_name req_user.gh_access_token))
                _
                (λ t.
                  Keeps-bind db (team_with_gh_id_contains_user env t.organization t.id req_user) _
                    (λ member. Keeps-bind db (require member not_a_member) _ (λ allowed.
                      Keeps-bind db
                        (found github_failed (env.org_by_name org_name req_user.gh_access_token)) _
                        (λ avatar. kept _ _ (create_or_update-IsKept _ db))))))
        | inr (c, e) ↦ rw (create_or_update_github_team, e) (refused _)
      ]

  team-Keeps :
      (login : Text) (chunks : List Text)
      → Keeps db (create_or_update_team env login chunks req_user db)
  unfolding create_or_update_team
  team-Keeps login [] = refused _
  team-Keeps login (system ∷ []) =
      Keeps-if db (text_eq system (codes "github")) _ _ (refused _) (refused _)
  team-Keeps login (system ∷ org ∷ []) =
      Keeps-if db (text_eq system (codes "github")) _ _ (refused _) (refused _)
  team-Keeps login (system ∷ org ∷ t ∷ rest) =
      Keeps-if db (text_eq system (codes "github")) _ _
        (github_team-Keeps (env.to_lowercase login) org t) (refused _)

  with_team-Keeps : (r : Result Error (Team × Tables)) → Keeps db r → Keeps db (with_team env r)
  with_team-Keeps _ (kept t db' h) = kept (team_owner t) db' h
  with_team-Keeps _ (refused e) = refused e

  pub find_or_create_by_login-Keeps :
      (name : Text) → Keeps db (find_or_create_by_login env req_user name db)
  unfolding find_or_create_by_login
  find_or_create_by_login-Keeps name =
      Keeps-if db (contains name (codes ":")) _ _
        (with_team-Keeps _ (team-Keeps name (split b':' name)))
        (Keeps-bind db (found (user_not_found name) (latest (matching_users env name db.users))) _
          (λ u. kept _ _ (record { users = refl; crate_owners = refl })))
