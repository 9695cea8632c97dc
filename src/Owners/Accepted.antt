-- ===== src/Owners/Accepted.antt =====
-- What accepting an invitation does.
use cargo_website.Base.{
  ℕ, ◌≡◌, ◌<◌, refl, arith, Bool, true, false, ◌&&◌, List, [], ◌∷◌, ok, err, ◌==◌, leb, any,
  Bool-cases, inl, inr, subst,
}
use cargo_website.Owners.Tables.{
  user, CrateOwner, CrateOwnerInvitation, Tables, invitation_expired, Env, is_live, insert_owner,
  same_invitation, delete_invitation,
}
use cargo_website.Owners.Invitations.{accept, is_expired, expires_at}

-- The user is an owner of the crate.
abbrev pub owns : ℕ → ℕ → List CrateOwner → Bool
owns id krate rows = any (λ r. is_live user krate r && r.owner_id == id) rows

owns-insert_owner :
    (id krate by : ℕ) (rows : List CrateOwner)
    → owns id krate (
        insert_owner
          (record {
            crate_id = krate;
            owner_id = id;
            created_by = by;
            owner_kind = user;
            deleted = false;
          })
          rows)
      ≡ true
unfolding insert_owner is_live
owns-insert_owner id krate by [] = ground arith
owns-insert_owner id krate by (r ∷ rows) = ground (arith, owns-insert_owner id krate by rows)

deleted_once :
    (id krate : ℕ) (rows : List CrateOwnerInvitation)
    → any (λ i. same_invitation id krate i) (delete_invitation id krate rows) ≡ false
deleted_once id krate [] = refl
deleted_once id krate (i ∷ rows) = ground (arith, deleted_once id krate rows)

abbrev pub accepted : CrateOwnerInvitation → Tables → Tables
accepted i db = record db {
  crate_owners =
      insert_owner
        (record {
          crate_id = i.crate_id;
          owner_id = i.invited_user_id;
          created_by = i.invited_by_user_id;
          owner_kind = user;
          deleted = false;
        })
        db.crate_owners;
  crate_owner_invitations =
      delete_invitation i.invited_user_id i.crate_id db.crate_owner_invitations;
}

pub accept-accepted :
    (env : Env) (i : CrateOwnerInvitation) (db db' : Tables)
    → accept env i db ≡ ok db'
    → (leb (expires_at env i) env.now ≡ false) × (accepted i db ≡ db')
unfolding accept is_expired
accept-accepted env i db db' h = elim (Bool-cases (leb (expires_at env i) env.now)) [
  | inl e ↦
      let refusal : accept env i db ≡ err invitation_expired = rw (accept, is_expired, e) refl in
      absurd cc
  | inr e ↦
      let success : accept env i db ≡ ok (accepted i db) = rw (accept, is_expired, e) refl in
      (e, cc)
]

-- If `accept` succeeds, then the invitation had not expired, the user owns the crate, and the
-- invitation is gone.
pub accept-owns :
    (env : Env) (i : CrateOwnerInvitation) (db db' : Tables)
    → accept env i db ≡ ok db'
    → (env.now < expires_at env i)
      × (owns i.invited_user_id i.crate_id db'.crate_owners ≡ true)
      × (any (λ j. same_invitation i.invited_user_id i.crate_id j) db'.crate_owner_invitations
          ≡ false)
accept-owns env i db db' h =
    let (in_time, same) = accept-accepted env i db db' h in
    (
      ground (arith, in_time),
      subst (λ d. owns i.invited_user_id i.crate_id d.crate_owners ≡ true) same
          (owns-insert_owner i.invited_user_id i.crate_id i.invited_by_user_id db.crate_owners),
      subst
          (λ d.
            any (λ j. same_invitation i.invited_user_id i.crate_id j) d.crate_owner_invitations
            ≡ false)
          same (deleted_once i.invited_user_id i.crate_id db.crate_owner_invitations),
    )
