-- ===== src/Accounts/Sound.antt =====
-- The routes that write emails keep each token at its address.
use cargo_website.Base.{
  ◌≡◌, refl, sym, subst, inl, inr, true, List, ◌==◌, find-eq-some, find-Any, All, All-map,
  Option-cases, Result-cases,
}
use cargo_website.Base.Distinct.{AreDistinct}
use cargo_website.Base.Text.{Text}
use cargo_website.Accounts.{User, Email, Mail, State, Outside, upsert_email, regenerate_token}
use cargo_website.Accounts.Mails.{send_user_confirm}
use cargo_website.Accounts.Rows.{email_of, update_where, upsert_row, regenerate}
use cargo_website.Accounts.Routes.{mail_for, store_email, roll_back, regenerate_and_send}
use cargo_website.Accounts.Belongs.{
  Belongs, IsConfirmed, IsFresh, Follows, Sends, All-lookup, Inv-follows,
}
use cargo_website.Accounts.Kept.{
  same_user, IsSound, all_kept, sends_row, send-emails, send-mails, Inv-send, distinct_update,
}
use cargo_website.Accounts.Written.{upsert_row-IsWritten, regenerate-Follows}

-- A statement on the row of a user and the mail for that row.
pub send-IsSound :
    (confirmed : List Text) (out : Outside) (t a : Text) (m : Mail) (s s' : State)
    → IsFresh t confirmed s
    → IsSound confirmed s
    → All (Follows t a s) s'.emails
    → s'.mails ≡ s.mails
    → AreDistinct same_user s'.emails
    → Sends t a s m
    → IsSound confirmed (send_user_confirm out m s').1
send-IsSound confirmed out t a m s s' fresh sound follows same distinct sent = record {
  distinct = subst (λ es. AreDistinct same_user es) (sym (send-emails out m s')) distinct;
  inv = Inv-send t a confirmed out m s s' fresh follows same sent sound.inv;
}

-- What depends on the emails and the mails only.
pub IsSound-same :
    (confirmed : List Text) (s s' : State)
    → s'.emails ≡ s.emails
    → s'.mails ≡ s.mails
    → IsSound confirmed s
    → IsSound confirmed s'
IsSound-same confirmed s s' e f h = record {
  distinct = subst (λ es. AreDistinct same_user es) (sym e) h.distinct;
  inv = record {
    own =
        subst (λ es. All (λ (e : Email). Belongs e.token e.email s') es) (sym e)
          (All-map (λ x b. belongs x.token x.email b) s.emails h.inv.own);
    verified =
        subst (λ es. All (λ (e : Email). e.verified ≡ true → IsConfirmed confirmed s' e) es) (sym e)
          (All-map (λ x b v. let (t, i, c) = b v in (t, i, belongs t x.email c)) s.emails
            h.inv.verified);
  };
}
  where
    belongs : (t a : Text) → Belongs t a s → Belongs t a s'
    belongs t a b = record {
      mailed = subst (λ ms. All (λ (m : Mail). m.token ≡ t → m.to ≡ a) ms) (sym f) b.mailed;
      stored = subst (λ es. All (λ (e : Email). e.token ≡ t → e.email ≡ a) es) (sym e) b.stored;
    }

pub store_email-IsSound :
    (confirmed : List Text) (out : Outside) (user : User) (email : Text) (s : State)
    → IsFresh out.random_string confirmed s
    → IsSound confirmed s
    → IsSound confirmed (store_email out user email s).1
unfolding store_email
store_email-IsSound confirmed out user email s fresh sound =
    elim (Option-cases (out.refuses upsert_email)) [
      | inr (x, e) ↦ rw (store_email, e) sound
      | inl e ↦
          let s' = upsert_row out user.id email s in
          let w = upsert_row-IsWritten out user.id email s in
          elim (Option-cases (email_of user.id s')) [
            | inl f ↦ rw (store_email, e, f) sound
            | inr (r, f) ↦
                let i = find-Any (λ (e : Email). e.user_id == user.id) s'.emails r f in
                let is = find-eq-some (λ (e : Email). e.user_id == user.id) s'.emails r f in
                let at_email : r.email ≡ email =
                  All-lookup (λ (e : Email). (e.user_id == user.id) ≡ true → e.email ≡ email)
                    s'.emails r w.addressed i is in
                let m : Mail = record { to = email; user_name = user.gh_login; token = r.token } in
                rw (store_email, e, f)
                  (send-IsSound confirmed out out.random_string email m s s' fresh sound w.follows
                    w.same_mails (w.distinct sound.distinct)
                    (sends_row out.random_string email s r m
                      (All-lookup (Follows out.random_string email s) s'.emails r w.follows i) refl
                      (sym at_email)))
          ]
    ]

pub regenerate_and_send-IsSound :
    (confirmed : List Text) (out : Outside) (user : User) (s : State)
    → IsFresh out.random_string confirmed s
    → IsSound confirmed s
    → IsSound confirmed (regenerate_and_send out user s).1
unfolding regenerate_and_send
regenerate_and_send-IsSound confirmed out user s fresh sound =
    elim (Option-cases (out.refuses regenerate_token)) [
      | inr (x, e) ↦ rw (regenerate_and_send, e) sound
      | inl e ↦
          let s' = update_where (λ e. e.user_id == user.id) (regenerate out) s in
          elim (Option-cases (email_of user.id s')) [
            | inl f ↦ rw (regenerate_and_send, e, f) sound
            | inr (r, f) ↦
                let follows = regenerate-Follows out user.id s r sound.distinct f in
                let i = find-Any (λ (e : Email). e.user_id == user.id) s'.emails r f in
                let m = mail_for user r in
                let sent =
                  sends_row out.random_string r.email s r m
                    (All-lookup (Follows out.random_string r.email s) s'.emails r follows i) refl
                    refl in
                let distinct =
                  distinct_update s (λ e. e.user_id == user.id) (regenerate out)
                    (λ e. unfold regenerate in refl) sound.distinct in
                elim (Result-cases (send_user_confirm out m s').0) [
                  | inl (_, g) ↦
                      rw (regenerate_and_send, e, f, g)
                        (send-IsSound confirmed out out.random_string r.email m s s' fresh sound
                          follows refl distinct sent)
                  | inr (x, g) ↦
                      rw (regenerate_and_send, e, f, g)
                        (record {
                          distinct = sound.distinct;
                          inv =
                              Inv-follows out.random_string r.email confirmed s
                                (roll_back s (send_user_confirm out m s').1) fresh
                                (all_kept out.random_string r.email s)
                                (send-mails out.random_string r.email out m s s' refl sent)
                                sound.inv;
                        })
                ]
          ]
    ]
