-- ===== src/Owners/Others.antt =====
-- What changes of owners do to the individual owners of any crate.
use cargo_website.Base.{
  ℕ, ◌≡◌, ◌≢◌, ◌∙◌, refl, subst, arith, Bool, true, false, ◌&&◌, ◌||◌, List, [], ◌∷◌, ◌++◌, Result,
  ok, err, ◌>>=◌, ◌==◌, ==_iff, if◌then◌else◌, filter, bind-eq-ok, Bool-cases, inl, inr,
}
use cargo_website.Base.Text.{Text}
use cargo_website.Owners.Tables.{
  User, OwnerKind, user, Owner, Tables, Env, Added, Error, last_individual_owner, CrateOwner,
  users_owning, owners, is_live, insert_owner, delete_owner, same_kind, owner_id, kind,
}
use cargo_website.Owners.Teams.{rights}
use cargo_website.Owners.Modify.{
  modify_owners, add_each, remove_each, owner_remove, remove_found, keep_an_owner, only_full,
}
use cargo_website.Owners.Kept.{Keeps, kept, refused, find_or_create_by_login-Keeps}
use cargo_website.Owners.Modified.{
  individual_owners, add_each-Leaves, Leaves-ok, modify_owners-owned,
}

abbrev pub has : List User → Bool
has [] = false
has (_ ∷ _) = true

has-append : (xs ys : List User) → has (xs ++ ys) ≡ has xs || has ys
has-append [] ys = refl
has-append (x ∷ xs) ys = refl

raise :
    (b c : Bool) (xs ys : List User)
    → (b ≡ true → c ≡ true)
    → has ((if b then xs else []) ++ ys) ≡ true
    → has ((if c then xs else []) ++ ys) ≡ true
raise true c xs ys f h = rw (f refl) h
raise false true [] ys f h = h
raise false true (x ∷ xs) ys f h = refl
raise false false xs ys f h = h

raise_rest :
    (xs ys zs : List User)
    → (has ys ≡ true → has zs ≡ true)
    → has (xs ++ ys) ≡ true
    → has (xs ++ zs) ≡ true
raise_rest [] ys zs f h = f h
raise_rest (x ∷ xs) ys zs f h = refl

is_live-undelete :
    (k : ℕ) (r : CrateOwner)
    → is_live user k r ≡ true
    → is_live user k (record r { deleted = false }) ≡ true
unfolding is_live
is_live-undelete k r h = ground arith

abbrev same_key : ℕ → ℕ → OwnerKind → CrateOwner → Bool
same_key krate id c r = r.crate_id == krate && r.owner_id == id && same_kind r.owner_kind c

pub has-insert_owner :
    (k : ℕ) (us : List User) (new : CrateOwner) (rows : List CrateOwner)
    → has (users_owning k us rows) ≡ true
    → has (users_owning k us (insert_owner new rows)) ≡ true
unfolding users_owning insert_owner
has-insert_owner k us new [] h = cc
has-insert_owner k us new (r ∷ rows) h =
    elim (Bool-cases (same_key new.crate_id new.owner_id new.owner_kind r)) [
      | inl e ↦ rw e (
          raise (is_live user k r) (is_live user k (record r { deleted = false }))
            (filter (λ u. u.id == r.owner_id) us) (users_owning k us rows)
            (λ l. is_live-undelete k r l) h)
      | inr e ↦ rw e (
          raise_rest (if is_live user k r then filter (λ u. u.id == r.owner_id) us else [])
            (users_owning k us rows) (users_owning k us (insert_owner new rows))
            (λ l. has-insert_owner k us new rows l) h)
    ]

other-not_live :
    (k krate id : ℕ) (c : OwnerKind) (r : CrateOwner)
    → (krate == k) ≡ false
    → same_key krate id c r ≡ true
    → is_live user k r ≡ false
unfolding is_live
other-not_live k krate id c r h e = ground arith

users_owning-delete_owner :
    (k krate id : ℕ) (c : OwnerKind) (us : List User) (rows : List CrateOwner)
    → (krate == k) ≡ false
    → users_owning k us (delete_owner krate id c rows) ≡ users_owning k us rows
unfolding users_owning delete_owner
users_owning-delete_owner k krate id c us [] h = refl
users_owning-delete_owner k krate id c us (r ∷ rows) h = elim (Bool-cases (same_key krate id c r)) [
  | inl e ↦
      rw
        (
          e,
          other-not_live k krate id c r h e,
          other-not_live k krate id c (record r { deleted = true }) h e,
        )
        (users_owning-delete_owner k krate id c us rows h)
  | inr e ↦ rw (e, users_owning-delete_owner k krate id c us rows h) refl
]

-- Removing owners of another crate.
owner_remove-other :
    (env : Env) (k krate : ℕ) (self : User) (name : Text) (db db' : Tables)
    → (krate == k) ≡ false
    → owner_remove env krate self name db ≡ ok db'
    → individual_owners k db' ≡ individual_owners k db
unfolding owner_remove remove_found
owner_remove-other env k krate self name db db' h e =
    removed (find_or_create_by_login-Keeps env self db name) e
  where
    removed :
        {r : Result Error (Owner × Tables)}
        → Keeps db r
        → (do o ← r; ok (remove_found env krate o)) ≡ ok db'
        → individual_owners k db' ≡ individual_owners k db
    removed (kept o left s) e =
        let same : remove_found env krate (o, left) ≡ db' = cc in
        subst (λ d. individual_owners k d ≡ individual_owners k db) same
          (rw (s.users, s.crate_owners)
            (users_owning-delete_owner k krate (owner_id o) (kind o) db.users db.crate_owners h))
    removed (refused _) e = cc

remove_each-other :
    (env : Env) (k krate : ℕ) (self : User) (logins : List Text) (db db' : Tables)
    → (krate == k) ≡ false
    → remove_each env krate self logins db ≡ ok db'
    → individual_owners k db' ≡ individual_owners k db
unfolding remove_each
remove_each-other env k krate self [] db db' h e =
    let same : db ≡ db' = cc in
    subst (λ d. individual_owners k d ≡ individual_owners k db) same refl
remove_each-other env k krate self (name ∷ logins) db db' h e =
    let (next, e0, e1) = bind-eq-ok (owner_remove env krate self name db) _ e in
    remove_each-other env k krate self logins next db' h e1
    ∙ owner_remove-other env k krate self name db next h e0

keep_an_owner-same :
    (krate : ℕ) (db : Tables) (us : List User) (answers : List Added) (db' : Tables)
    → individual_owners krate db ≡ us
    → keep_an_owner krate db ≡ ok (answers, db')
    → db ≡ db'
unfolding keep_an_owner
keep_an_owner-same krate db [] answers db' e h =
    let refusal : keep_an_owner krate db ≡ err last_individual_owner = rw (keep_an_owner, e) refl in
    absurd cc
keep_an_owner-same krate db (u ∷ us) answers db' e h =
    let success : keep_an_owner krate db ≡ ok ([], db) = rw (keep_an_owner, e) refl in cc

modify_owners-other :
    (env : Env) (k krate : ℕ) (add : Bool) (self : User) (logins : List Text) (db : Tables)
    (answers : List Added) (db' : Tables)
    → (krate == k) ≡ false
    → (if add
        then add_each env krate self (owners krate db) logins db
        else (do db'' ← remove_each env krate self logins db; keep_an_owner krate db''))
      ≡ ok (answers, db')
    → individual_owners k db' ≡ individual_owners k db
modify_owners-other env k krate true self logins db answers db' h e =
    Leaves-ok k _ answers db' (add_each-Leaves env krate k self (owners krate db) logins db) e
modify_owners-other env k krate false self logins db answers db' h e =
    let (left, e0, e1) = bind-eq-ok (remove_each env krate self logins db) _ e in
    subst (λ d. individual_owners k d ≡ individual_owners k db)
      (keep_an_owner-same krate left _ answers db' refl e1)
      (remove_each-other env k krate self logins db left h e0)

pub not_empty-has : (us : List User) → us ≢ [] → has us ≡ true
not_empty-has [] h = absurd (h refl)
not_empty-has (u ∷ us) h = refl

pub has-not_empty : (us : List User) → has us ≡ true → us ≢ []
has-not_empty [] h = λ e. cc
has-not_empty (u ∷ us) h = λ e. cc

pub modify_owners-has :
    (env : Env) (k krate : ℕ) (add : Bool) (self : User) (logins : List Text) (db : Tables)
    (answers : List Added) (db' : Tables)
    → modify_owners env add krate self logins db ≡ ok (answers, db')
    → has (individual_owners k db) ≡ true
    → has (individual_owners k db') ≡ true
unfolding modify_owners
modify_owners-has env k krate add self logins db answers db' e h = elim (Bool-cases (krate == k)) [
  | inl same ↦
      subst (λ c. has (individual_owners c db') ≡ true) ((==_iff krate k).0 same)
        (not_empty-has _ (modify_owners-owned env add krate self logins db answers db' e).1)
  | inr other ↦
      let (r, _, e0) = bind-eq-ok (rights env self (owners krate db)) _ e in
      let (allowed, _, e1) = bind-eq-ok (only_full r) _ e0 in
      rw (modify_owners-other env k krate add self logins db answers db' other e1) h
]
