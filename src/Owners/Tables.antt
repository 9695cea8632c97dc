-- ===== src/Owners/Tables.antt =====
-- The rows of users, teams, owners and invitations, and the queries on them.
use cargo_website.Base.{
  ℕ, Bool, true, false, not, ◌&&◌, List, [], ◌∷◌, ◌++◌, map, Option, none, some, Result, ok, err,
  ◌==◌, if◌then◌else◌, filter,
}
use cargo_website.Base.Int.{ℤ, ltb_ℤ}
use cargo_website.Base.Text.{Text}

pub record User : Type 0 where
  pub id : ℕ
  pub gh_access_token : Text
  pub gh_login : Text
  pub gh_id : ℤ
  pub account_lock_reason : Option Text
  pub account_lock_until : Option ℕ

pub record Team : Type 0 where
  pub id : ℕ
  pub login : Text
  pub github_id : ℕ
  pub name : Option Text
  pub avatar : Option Text
  pub org_id : Option ℕ

pub data OwnerKind : Type 0 where
  user team : OwnerKind

pub data Owner : Type 0 where
  user_owner : User → Owner
  team_owner : Team → Owner

-- A row of `crate_owners`, with its `deleted` column.
pub record CrateOwner : Type 0 where
  pub crate_id : ℕ
  pub owner_id : ℕ
  pub created_by : ℕ
  pub owner_kind : OwnerKind
  pub deleted : Bool

pub record CrateOwnerInvitation : Type 0 where
  pub invited_user_id : ℕ
  pub invited_by_user_id : ℕ
  pub crate_id : ℕ
  pub created_at : ℕ
  pub token : Text

pub record Tables : Type 0 where
  pub users : List User
  pub teams : List Team
  pub next_team_id : ℕ
  pub crate_owners : List CrateOwner
  pub crate_owner_invitations : List CrateOwnerInvitation

pub data Rights : Type 0 where
  nothing publish full : Rights

pub data Error : Type 0 where
  panicked missing_team_argument unknown_handler team_not_found not_a_member : Error
  only_publish_rights no_rights last_individual_owner invitation_expired not_found github_failed :
      Error
  special_character : ℕ → Error
  user_not_found already_an_owner : Text → Error

-- GitHub's answers on a team and on a membership.
pub record GithubTeam : Type 0 where
  pub id : ℕ
  pub name : Option Text
  pub organization : ℕ

pub data Membership : Type 0 where
  unknown unavailable : Membership
  state : Text → Membership

pub record Env : Type 0 where
  pub to_lowercase : Text → Text
  pub lower : Text → Text
  pub team_by_name : Text → Text → Text → Option GithubTeam
  pub org_by_name : Text → Text → Option (Option Text)
  pub team_membership : ℕ → ℕ → Text → Text → Membership
  pub ownership_invitations_expiration_days : ℕ
  pub now : ℕ
  pub new_token : Text

-- The answer to adding an owner.
pub data Added : Type 0 where
  invited already_invited team_added : Text → Added

abbrev pub same_kind : OwnerKind → OwnerKind → Bool
same_kind user user = true
same_kind team team = true
same_kind _ _ = false

abbrev pub login : Owner → Text
login (user_owner u) = u.gh_login
login (team_owner t) = t.login

abbrev pub owner_id : Owner → ℕ
owner_id (user_owner u) = u.id
owner_id (team_owner t) = t.id

abbrev pub kind : Owner → OwnerKind
kind (user_owner _) = user
kind (team_owner _) = team

-- The rows that `CrateOwner::by_owner_kind` finds for a crate.
unfoldable pub is_live : OwnerKind → ℕ → CrateOwner → Bool
is_live k krate r = not r.deleted && same_kind r.owner_kind k && r.crate_id == krate

-- `User::owning`, a join with the table of users.
unfoldable pub users_owning : ℕ → List User → List CrateOwner → List User
users_owning krate users [] = []
users_owning krate users (r ∷ rows) =
    (if is_live user krate r then filter (λ u. u.id == r.owner_id) users else [])
    ++ users_owning krate users rows

unfoldable pub teams_owning : ℕ → List Team → List CrateOwner → List Team
teams_owning krate teams [] = []
teams_owning krate teams (r ∷ rows) =
    (if is_live team krate r then filter (λ t. t.id == r.owner_id) teams else [])
    ++ teams_owning krate teams rows

-- `Crate::owners`: the users, and then the teams.
unfoldable pub owners : ℕ → Tables → List Owner
owners krate db =
    map user_owner (users_owning krate db.users db.crate_owners)
    ++ map team_owner (teams_owning krate db.teams db.crate_owners)

-- `on_conflict(primary_key).do_update().set(deleted.eq(false))`.
unfoldable pub insert_owner : CrateOwner → List CrateOwner → List CrateOwner
insert_owner new [] = new ∷ []
insert_owner new (r ∷ rows) =
    if (r.crate_id == new.crate_id
      && r.owner_id == new.owner_id
      && same_kind r.owner_kind new.owner_kind)
    then record r { deleted = false } ∷ rows
    else r ∷ insert_owner new rows

unfoldable pub delete_owner : ℕ → ℕ → OwnerKind → List CrateOwner → List CrateOwner
delete_owner krate id k [] = []
delete_owner krate id k (r ∷ rows) =
    (if (r.crate_id == krate && r.owner_id == id && same_kind r.owner_kind k)
      then record r { deleted = true }
      else r)
    ∷ delete_owner krate id k rows

-- `ORDER BY gh_id DESC`, the first row.
unfoldable pub latest : List User → Option User
latest [] = none
latest (u ∷ us) = elim (latest us) [
  | none ↦ some u
  | some v ↦ if ltb_ℤ u.gh_id v.gh_id then some v else some u
]

abbrev pub same_invitation : ℕ → ℕ → CrateOwnerInvitation → Bool
same_invitation id krate i = i.invited_user_id == id && i.crate_id == krate

-- `diesel::delete(&invitation)`, by its primary key.
abbrev pub delete_invitation : ℕ → ℕ → List CrateOwnerInvitation → List CrateOwnerInvitation
delete_invitation id krate rows = filter (λ i. not (same_invitation id krate i)) rows

abbrev pub found {ℓ} : {A : Type ℓ} → Error → Option A → Result Error A
found e none = err e
found e (some a) = ok a

abbrev pub require : Bool → Error → Result Error Bool
require b e = if b then ok true else err e
