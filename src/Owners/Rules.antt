-- ===== src/Owners/Rules.antt =====
-- What `modify_owners` guarantees: only an individual owner succeeds, and an individual owner stays.
use cargo_website.Base.{
  ℕ, ◌≡◌, ◌≢◌, ◌↔◌, refl, Bool, true, false, ◌&&◌, List, [], ◌∷◌, ◌++◌, map, ok, ◌==◌,
  if◌then◌else◌, any, arith, bind-eq-ok, Bool-cases, inl, inr,
}
use cargo_website.Owners.Tables.{
  User, Team, OwnerKind, user, team, Owner, user_owner, team_owner, CrateOwner, Tables, Rights,
  nothing, publish, full, Env, users_owning, teams_owning, owners, insert_owner, is_live, same_kind,
}
use cargo_website.Owners.Teams.{rights, rights_loop, contains_user}

same_kind-team : (k : OwnerKind) → same_kind k team ≡ true → k ≡ team
same_kind-team user h = cc
same_kind-team team h = refl

team-not_live : (krate : ℕ) (r : CrateOwner) → r.owner_kind ≡ team → is_live user krate r ≡ false
unfolding is_live
team-not_live krate r e = rw e (ground arith)

abbrev same_key : CrateOwner → CrateOwner → Bool
same_key new r =
    r.crate_id == new.crate_id
    && r.owner_id == new.owner_id
    && same_kind r.owner_kind new.owner_kind

key_kind :
    (new r : CrateOwner) → same_key new r ≡ true → same_kind r.owner_kind new.owner_kind ≡ true
key_kind new r h = ground arith

-- Adding a team leaves the individual owners as they are.
pub users_owning-insert_owner :
    (krate : ℕ) (users : List User) (new : CrateOwner) (rows : List CrateOwner)
    → new.owner_kind ≡ team
    → users_owning krate users (insert_owner new rows) ≡ users_owning krate users rows
unfolding users_owning insert_owner
users_owning-insert_owner krate users new [] e = rw (team-not_live krate new e) refl
users_owning-insert_owner krate users new (r ∷ rows) e = elim (Bool-cases (same_key new r)) [
  | inl same ↦
      let t : r.owner_kind ≡ team = same_kind-team r.owner_kind (rw (← e) (key_kind new r same)) in
      rw (same, team-not_live krate r t, team-not_live krate (record r { deleted = false }) t) refl
  | inr other ↦ rw (other, users_owning-insert_owner krate users new rows e) refl
]

rights_loop-users :
    (env : Env) (self : User) (us : List User) (os : List Owner) (best : Rights)
    → rights_loop env self (map user_owner us ++ os) best
      ≡ (if any (λ v. v.id == self.id) us then ok full else rights_loop env self os best)
unfolding rights_loop
rights_loop-users env self [] os best = refl
rights_loop-users env self (v ∷ us) os best = ground (arith, rights_loop-users env self us os best)

rights_loop-teams :
    (env : Env) (self : User) (ts : List Team) (best : Rights)
    → best ≢ full
    → rights_loop env self (map team_owner ts) best ≢ ok full
unfolding rights_loop
rights_loop-teams env self [] best h e = h (cc)
rights_loop-teams env self (t ∷ ts) best h e =
    let (member, _, k) = bind-eq-ok (contains_user env t self) _ e in
    rights_loop-teams env self ts (if member then publish else best) (upgraded member best h) k
  where
    upgraded : (b : Bool) (best : Rights) → best ≢ full → (if b then publish else best) ≢ full
    upgraded true best h = λ e. cc
    upgraded false best h = h

-- A user has full rights exactly if he is an individual owner of the crate, whatever GitHub answers
-- about the crate's teams.
pub rights_iff :
    (env : Env) (self : User) (krate : ℕ) (db : Tables)
    → (rights env self (owners krate db) ≡ ok full)
      ↔ (any (λ v. v.id == self.id) (users_owning krate db.users db.crate_owners) ≡ true)
unfolding rights owners
rights_iff env self krate db =
    let us = users_owning krate db.users db.crate_owners in
    let ts = teams_owning krate db.teams db.crate_owners in
    rw (rights_loop-users env self us (map team_owner ts) nothing)
      (elim (Bool-cases (any (λ v. v.id == self.id) us)) [
        | inl own ↦ rw own (λ _. refl, λ _. refl)
        | inr none_own ↦
            rw none_own (λ e. absurd (rights_loop-teams env self ts nothing (λ h. cc) e), λ h. cc)
      ])
