-- ===== src/Owners/Tests.antt =====
-- Two owners of a crate, one of whom was removed before, and an invitation.
use cargo_website.Base.{
  ℕ, ◌≡◌, ◌≢◌, ◌↔◌, ◌<◌, refl, Bool, true, false, [], ◌∷◌, none, ok, err, any, ◌==◌, ◌&&◌,
}
use cargo_website.Base.Int.{pos}
use cargo_website.Base.Text.{codes, text_eq, contains, starts_with}
use cargo_website.Owners.Tables.{
  User, user, CrateOwner, CrateOwnerInvitation, Tables, unknown, Env, full, owners, users_owning,
  teams_owning, is_live, delete_owner, insert_owner, latest, last_individual_owner,
}
use cargo_website.Owners.Teams.{rights, rights_loop, find_or_create_by_login}
use cargo_website.Owners.Invitations.{accept, is_expired, expires_at}
use cargo_website.Owners.Modify.{
  modify_owners, remove_each, owner_remove, remove_found, keep_an_owner,
}
use cargo_website.Owners.Rules.{rights_iff}
use cargo_website.Owners.Modified.{individual_owners, modify_owners-owned}
use cargo_website.Owners.Histories.{modifying, History, start, after, History-owned}
use cargo_website.Owners.Accepted.{owns, accept-owns}

-- No answer of GitHub is needed; a day in microseconds is the time.
abbrev env : Env
env = record {
  to_lowercase = λ s. s;
  lower = λ s. s;
  team_by_name = λ _ _ _. none;
  org_by_name = λ _ _. none;
  team_membership = λ _ _ _ _. unknown;
  ownership_invitations_expiration_days = 30;
  now = 86_400_000_000;
  new_token = codes "token";
}

abbrev alice : User
alice = record {
  id = 1;
  gh_access_token = codes "a";
  gh_login = codes "alice";
  gh_id = pos 11;
  account_lock_reason = none;
  account_lock_until = none;
}

abbrev bob : User
bob = record {
  id = 2;
  gh_access_token = codes "b";
  gh_login = codes "bob";
  gh_id = pos 12;
  account_lock_reason = none;
  account_lock_until = none;
}

abbrev owner_row : ℕ → Bool → CrateOwner
owner_row id gone = record {
  crate_id = 5;
  owner_id = id;
  created_by = 1;
  owner_kind = user;
  deleted = gone;
}

abbrev invitation : CrateOwnerInvitation
invitation = record {
  invited_user_id = 2;
  invited_by_user_id = 1;
  crate_id = 5;
  created_at = 0;
  token = codes "t";
}

abbrev tables : Bool → Bool → Tables
tables alice_gone bob_gone = record {
  users = alice ∷ bob ∷ [];
  teams = [];
  next_team_id = 1;
  crate_owners = owner_row 1 alice_gone ∷ owner_row 2 bob_gone ∷ [];
  crate_owner_invitations = invitation ∷ [];
}

-- Alice cannot remove herself, the last owner.
last_owner :
    modify_owners env false 5 alice (codes "alice" ∷ []) (tables false true)
    ≡ err last_individual_owner
unfolding modify_owners remove_each owner_remove remove_found keep_an_owner rights rights_loop
    owners users_owning teams_owning is_live delete_owner find_or_create_by_login latest text_eq
    contains starts_with
last_owner = refl

rights_iff_example : (rights env bob (owners 5 (tables false false)) ≡ ok full) ↔ (
    any (λ v. v.id == 2) (users_owning 5 (alice ∷ bob ∷ []) (tables false false).crate_owners)
    ≡ true)
rights_iff_example = rights_iff env bob 5 (tables false false)

modify_owners-owned_example :
    (any (λ (v : User). v.id == 2) (individual_owners 5 (tables false false)) ≡ true)
    × (individual_owners 5 (tables true false) ≢ [])
unfolding modify_owners remove_each owner_remove remove_found keep_an_owner rights rights_loop
    owners users_owning teams_owning is_live delete_owner find_or_create_by_login latest text_eq
    contains starts_with
modify_owners-owned_example =
    modify_owners-owned env false 5 bob (codes "alice" ∷ []) (tables false false) []
      (tables true false) refl

abbrev joined : Tables
joined = record (tables false false) { crate_owner_invitations = [] }

accept-owns_example :
    (86_400_000_000 < expires_at env invitation)
    × (owns 2 5 joined.crate_owners ≡ true)
    × (any (λ (j : CrateOwnerInvitation). j.invited_user_id == 2 && j.crate_id == 5) [] ≡ false)
unfolding accept is_expired expires_at insert_owner
accept-owns_example = accept-owns env invitation (tables false true) joined refl

-- Bob removes Alice.
removal : History (tables false false) (tables true false)
unfolding modify_owners remove_each owner_remove remove_found keep_an_owner rights rights_loop
    owners users_owning teams_owning is_live delete_owner find_or_create_by_login latest text_eq
    contains starts_with
removal = after start (modifying env false 5 bob (codes "alice" ∷ []) [] refl)

two_owners : individual_owners 5 (tables false false) ≢ []
unfolding users_owning is_live
two_owners = λ e. cc

History-owned_example : individual_owners 5 (tables true false) ≢ []
History-owned_example = History-owned 5 (tables false false) (tables true false) removal two_owners
