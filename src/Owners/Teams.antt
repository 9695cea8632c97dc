-- ===== src/Owners/Teams.antt =====
-- src/models/{team,user,owner}.rs: the rights of a user, and the owner that a login names.
use cargo_website.Base.{
  ℕ, suc, Bool, false, not, ◌&&◌, ◌||◌, List, [], ◌∷◌, ◌++◌, Option, none, some, Result, ok, err,
  ◌>>=◌, ◌==◌, if◌then◌else◌, filter, find,
}
use cargo_website.Base.Int.{ℤ, pos, negsuc}
use cargo_website.Base.Text.{Text, codes, text_eq, split, contains, is_ascii_alphanumeric}
use cargo_website.Owners.Tables.{
  User, Team, Owner, user_owner, team_owner, Tables, Rights, nothing, publish, full, Error,
  panicked, missing_team_argument, unknown_handler, team_not_found, not_a_member, github_failed,
  special_character, user_not_found, Membership, unknown, unavailable, state, Env, login, latest,
  found, require,
}

abbrev pub active : Membership → Result Error Bool
active unknown = ok false
active unavailable = err github_failed
active (state s) = ok (text_eq s (codes "active"))

-- A column that a change set leaves out, as it is `none`, keeps its value.
abbrev pub or_kept {ℓ} : {A : Type ℓ} → Option A → Option A → Option A
or_kept none old = old
or_kept (some new) old = some new

-- `NewTeam::create_or_update`: the row with this GitHub id, changed, or a new one.
unfoldable pub team_row : Team → List Team → Option Team
team_row new [] = none
team_row new (t ∷ ts) =
    if t.github_id == new.github_id
    then some (record new {
      id = t.id;
      name = or_kept new.name t.name;
      avatar = or_kept new.avatar t.avatar;
    })
    else team_row new ts

unfoldable pub set_team : Team → List Team → List Team
set_team new [] = []
set_team new (t ∷ ts) = (if t.github_id == new.github_id then new else t) ∷ set_team new ts

unfoldable pub create_or_update : Team → Tables → Team × Tables
create_or_update new db = elim (team_row new db.teams) [
  | some t ↦ (t, record db { teams = set_team t db.teams })
  | none ↦ (new, record db { teams = db.teams ++ new ∷ []; next_team_id = suc db.next_team_id })
]

abbrev pub is_allowed_char : ℕ → Bool
is_allowed_char c = is_ascii_alphanumeric c || c == b'-' || c == b'_'

module _ (env : Env) where
  unfoldable pub team_with_gh_id_contains_user : ℕ → ℕ → User → Result Error Bool
  team_with_gh_id_contains_user org id u =
      active (env.team_membership org id u.gh_login u.gh_access_token)

  unfoldable pub contains_user : Team → User → Result Error Bool
  contains_user t u = elim t.org_id [
    | some org ↦ team_with_gh_id_contains_user org t.github_id u
    | none ↦ ok false
  ]

  -- The loop of `User::rights`, with the best rights found so far.
  unfoldable pub rights_loop : User → List Owner → Rights → Result Error Rights
  rights_loop self [] best = ok best
  rights_loop self (user_owner other ∷ os) best =
      let rest = rights_loop self os best in if other.id == self.id then ok full else rest
  rights_loop self (team_owner t ∷ os) best =
      let rest = λ (b : Rights). rights_loop self os b in
      do member ← contains_user t self; rest (if member then publish else best)

  unfoldable pub rights : User → List Owner → Result Error Rights
  rights self os = rights_loop self os nothing

  -- `Team::create_or_update_github_team`.
  unfoldable pub create_or_update_github_team :
      Text → Text → Text → User → Tables → Result Error (Team × Tables)
  create_or_update_github_team login org_name team_name req_user db =
      elim (find (λ c. not (is_allowed_char c)) org_name) [
        | some c ↦ err (special_character c)
        | none ↦ do
          t ← found team_not_found (env.team_by_name org_name team_name req_user.gh_access_token)
          member ← team_with_gh_id_contains_user t.organization t.id req_user
          allowed ← require member not_a_member
          avatar ← found github_failed (env.org_by_name org_name req_user.gh_access_token)
          ok (
              create_or_update
                (record {
                  id = db.next_team_id;
                  login = env.to_lowercase login;
                  github_id = t.id;
                  name = t.name;
                  avatar = avatar;
                  org_id = some t.organization;
                })
                db)
      ]

  -- `Team::create_or_update` on the parts of a login between colons. A login without a colon would
  -- end in a panic.
  unfoldable pub create_or_update_team :
      Text → List Text → User → Tables → Result Error (Team × Tables)
  create_or_update_team login [] req_user db = err panicked
  create_or_update_team login (system ∷ chunks) req_user db =
      if text_eq system (codes "github")
      then elim chunks [
        | [] ↦ err panicked
        | org ∷ rest ↦ elim rest [
          | [] ↦ err missing_team_argument
          | t ∷ _ ↦ create_or_update_github_team (env.to_lowercase login) org t req_user db
        ]
      ]
      else err unknown_handler

  abbrev pub matching_users : Text → List User → List User
  matching_users name users =
      filter (λ u. text_eq (env.lower u.gh_login) (env.to_lowercase name) && not (is_ghost u.gh_id))
        users
    where
      is_ghost : ℤ → Bool
      is_ghost (pos _) = false
      is_ghost (negsuc n) = n == 0

  abbrev pub with_team : Result Error (Team × Tables) → Result Error (Owner × Tables)
  with_team r = do t ← r; ok (team_owner t.0, t.1)

  unfoldable pub find_or_create_by_login : User → Text → Tables → Result Error (Owner × Tables)
  find_or_create_by_login req_user name db =
      if contains name (codes ":")
      then with_team (create_or_update_team name (split b':' name) req_user db)
      else (do
        u ← found (user_not_found name) (latest (matching_users name db.users))
        ok (user_owner u, db))
