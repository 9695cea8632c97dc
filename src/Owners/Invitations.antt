-- ===== src/Owners/Invitations.antt =====
-- src/models/crate_owner_invitation.rs and the handlers of src/controllers/crate_owner_invitation.rs:
-- the life of an invitation.
use cargo_website.Base.{
  ℕ, ◌+◌, ◌*◌, Bool, false, not, ◌&&◌, [], ◌∷◌, ◌++◌, Result, ok, err, ◌>>=◌, leb, if◌then◌else◌,
  any, filter, find,
}
use cargo_website.Base.Text.{Text, text_eq}
use cargo_website.Owners.Tables.{
  User, user, CrateOwnerInvitation, Tables, Error, invitation_expired, not_found, Env, Added,
  invited, already_invited, insert_owner, same_invitation, delete_invitation, found,
}

module _ (env : Env) where
  unfoldable pub expires_at : CrateOwnerInvitation → ℕ
  expires_at i = i.created_at + env.ownership_invitations_expiration_days * 86_400_000_000

  unfoldable pub is_expired : CrateOwnerInvitation → Bool
  is_expired i = leb (expires_at i) env.now

  -- `CrateOwnerInvitation::create`: an expired invitation makes way for the new one; another stays.
  unfoldable pub invite : User → User → ℕ → Tables → Result Error (Added × Tables)
  invite invited_user req_user krate db =
      let stale =
        λ (i : CrateOwnerInvitation). same_invitation invited_user.id krate i && is_expired i in
      let rows = filter (λ i. not (stale i)) db.crate_owner_invitations in
      let record_ : CrateOwnerInvitation = record {
        invited_user_id = invited_user.id;
        invited_by_user_id = req_user.id;
        crate_id = krate;
        created_at = env.now;
        token = env.new_token;
      } in
      if any (λ i. same_invitation invited_user.id krate i) rows
      then ok (already_invited invited_user.gh_login, record db { crate_owner_invitations = rows })
      else ok (
        invited invited_user.gh_login,
        record db { crate_owner_invitations = rows ++ record_ ∷ [] },
      )

  -- `accept`, with the row that the handler has found.
  unfoldable pub accept : CrateOwnerInvitation → Tables → Result Error Tables
  accept self db =
      if is_expired self
      then err invitation_expired
      else ok (record db {
        crate_owners =
            insert_owner
              (record {
                crate_id = self.crate_id;
                owner_id = self.invited_user_id;
                created_by = self.invited_by_user_id;
                owner_kind = user;
                deleted = false;
              })
              db.crate_owners;
        crate_owner_invitations =
            delete_invitation self.invited_user_id self.crate_id db.crate_owner_invitations;
      })

  unfoldable pub decline : CrateOwnerInvitation → Tables → Tables
  decline self db = record db {
    crate_owner_invitations =
        delete_invitation self.invited_user_id self.crate_id db.crate_owner_invitations;
  }

  -- `handle_invite`: the user's answer to the invitation to a crate.
  unfoldable pub handle_invite : ℕ → ℕ → Bool → Tables → Result Error Tables
  handle_invite user_id krate accepted db = do
    i ← found not_found (find (λ i. same_invitation user_id krate i) db.crate_owner_invitations)
    if accepted then accept i db else ok (decline i db)

  -- `handle_invite_with_token`.
  unfoldable pub handle_invite_with_token : Text → Tables → Result Error Tables
  handle_invite_with_token req_token db = do
    i ← found not_found (find (λ i. text_eq i.token req_token) db.crate_owner_invitations)
    accept i db
