-- ===== src/Owners/Modified.antt =====
-- What a change of the owners of a crate leaves behind.
use cargo_website.Base.{
  ℕ, ◌≡◌, ◌≢◌, ◌∙◌, refl, sym, ap, subst, Bool, true, false, List, [], ◌∷◌, Result, ok, err, ◌>>=◌,
  ◌==◌, if◌then◌else◌, any, bind-eq-ok,
}
use cargo_website.Base.Text.{Text}
use cargo_website.Owners.Tables.{
  User, Owner, user_owner, team_owner, Tables, Rights, nothing, publish, full, Error,
  last_individual_owner, Env, Added, users_owning, owners,
}
use cargo_website.Owners.Teams.{rights}
use cargo_website.Owners.Invitations.{invite}
use cargo_website.Owners.Modify.{
  modify_owners, add_each, owner_add, add_found, keep_an_owner, only_full, remove_each, is_owner,
}
use cargo_website.Owners.Kept.{Keeps, kept, refused, find_or_create_by_login-Keeps}
use cargo_website.Owners.Rules.{users_owning-insert_owner, rights_iff}

abbrev pub individual_owners : ℕ → Tables → List User
individual_owners krate db = users_owning krate db.users db.crate_owners

-- An operation that succeeds leaves these individual owners.
pub data Leaves {ℓ} {A : Type ℓ} (krate : ℕ) (us : List User)
    : Result Error (A × Tables) → Type ℓ where
  done : (a : A) (db' : Tables) → individual_owners krate db' ≡ us → Leaves krate us (ok (a, db'))
  failed : (e : Error) → Leaves krate us (err e)

Leaves-if {ℓ} :
    {A : Type ℓ} (krate : ℕ) (us : List User) (b : Bool) (m n : Result Error (A × Tables))
    → Leaves krate us m
    → Leaves krate us n
    → Leaves krate us (if b then m else n)
Leaves-if krate us true m n h k = h
Leaves-if krate us false m n h k = k

pub Leaves-ok {ℓ} :
    {A : Type ℓ} (krate : ℕ) (us : List User) (a : A) (db' : Tables) {m : Result Error (A × Tables)}
    → Leaves krate us m
    → m ≡ ok (a, db')
    → individual_owners krate db' ≡ us
Leaves-ok krate us a db' (done b db'' h) e =
    let same : db'' ≡ db' = cc in subst (λ d. individual_owners krate d ≡ us) same h
Leaves-ok krate us a db' (failed _) e = cc

module _ (env : Env) (krate k : ℕ) (req_user : User) where
  add_found-Leaves :
      (o : Owner) (db : Tables)
      → Leaves k (individual_owners k db) (add_found env krate req_user (o, db))
  unfolding add_found invite
  add_found-Leaves (user_owner u) db = Leaves-if k _ _ _ _ (done _ _ refl) (done _ _ refl)
  add_found-Leaves (team_owner t) db =
      done _ _ (users_owning-insert_owner k db.users _ db.crate_owners refl)

  found-Leaves :
      (db : Tables) {r : Result Error (Owner × Tables)}
      → Keeps db r
      → Leaves k (individual_owners k db) (r >>= add_found env krate req_user)
  found-Leaves db (kept o db' h) =
      let same : individual_owners k db' ≡ individual_owners k db =
        rw (h.users, h.crate_owners) refl in
      subst (λ us. Leaves k us (add_found env krate req_user (o, db'))) same
        (add_found-Leaves o db')
  found-Leaves db (refused e) = failed e

  owner_add-Leaves :
      (name : Text) (db : Tables)
      → Leaves k (individual_owners k db) (owner_add env krate req_user name db)
  unfolding owner_add
  owner_add-Leaves name db = found-Leaves db (find_or_create_by_login-Keeps env req_user db name)

  module _ (os : List Owner) where
    more-Leaves :
        (us : List User) (a : Added) {r : Result Error (List Added × Tables)}
        → Leaves k us r
        → Leaves k us (do more ← r; ok (a ∷ more.0, more.1))
    more-Leaves us a (done rest db' h) = done _ db' h
    more-Leaves us a (failed e) = failed e

    one-Leaves :
        (us : List User) (logins : List Text) {r : Result Error (Added × Tables)}
        → ((db : Tables)
            → Leaves k (individual_owners k db) (add_each env krate req_user os logins db))
        → Leaves k us r
        → Leaves k us (do
          added ← r
          more ← add_each env krate req_user os logins added.1
          ok (added.0 ∷ more.0, more.1))
    one-Leaves us logins others (done a db' h) =
        more-Leaves us a
          (subst (λ us. Leaves k us (add_each env krate req_user os logins db')) h (others db'))
    one-Leaves us logins others (failed e) = failed e

    pub add_each-Leaves :
        (logins : List Text) (db : Tables)
        → Leaves k (individual_owners k db) (add_each env krate req_user os logins db)
    unfolding add_each
    add_each-Leaves [] db = done _ db refl
    add_each-Leaves (name ∷ logins) db =
        Leaves-if k _ (is_owner env name os) _ _ (failed _)
          (one-Leaves _ logins (λ db. add_each-Leaves logins db) (owner_add-Leaves name db))

only_full-full : (r : Rights) {b : Bool} → only_full r ≡ ok b → r ≡ full
only_full-full full h = refl
only_full-full publish h = cc
only_full-full nothing h = cc

-- The check behind the removals, on the individual owners that are left.
keep_an_owner-owned :
    (krate : ℕ) (db : Tables) (us : List User) (added : List Added) (db' : Tables)
    → individual_owners krate db ≡ us
    → keep_an_owner krate db ≡ ok (added, db')
    → individual_owners krate db' ≢ []
unfolding keep_an_owner
keep_an_owner-owned krate db [] added db' e h =
    let refusal : keep_an_owner krate db ≡ err last_individual_owner = rw (keep_an_owner, e) refl in
    cc
keep_an_owner-owned krate db (u ∷ us) added db' e h =
    let success : keep_an_owner krate db ≡ ok ([], db) = rw (keep_an_owner, e) refl in
    let same : db ≡ db' = cc in
    let some_left : individual_owners krate db ≢ [] = λ k. cc in
    subst (λ d. individual_owners krate d ≢ []) same some_left

owned_after :
    (env : Env) (add : Bool) (krate : ℕ) (self : User) (logins : List Text) (db : Tables)
    (answers : List Added) (db' : Tables)
    → any (λ v. v.id == self.id) (individual_owners krate db) ≡ true
    → (if add
        then add_each env krate self (owners krate db) logins db
        else (do db'' ← remove_each env krate self logins db; keep_an_owner krate db''))
      ≡ ok (answers, db')
    → individual_owners krate db' ≢ []
owned_after env true krate self logins db answers db' own h = λ k.
    let same : individual_owners krate db' ≡ individual_owners krate db =
      Leaves-ok krate _ answers db'
        (add_each-Leaves env krate krate self (owners krate db) logins db) h in
    let z : any (λ (v : User). v.id == self.id) [] ≡ true =
      subst (λ us. any (λ v. v.id == self.id) us ≡ true) (sym same ∙ k) own in
    cc
owned_after env false krate self logins db answers db' own h =
    let (left, _, k) = bind-eq-ok (remove_each env krate self logins db) _ h in
    keep_an_owner-owned krate left _ answers db' refl k

-- If `modify_owners` succeeds, whether it adds or removes, then the user was an individual owner of
-- the crate before, and the crate has an individual owner after.
pub modify_owners-owned :
    (env : Env) (add : Bool) (krate : ℕ) (self : User) (logins : List Text) (db : Tables)
    (answers : List Added) (db' : Tables)
    → modify_owners env add krate self logins db ≡ ok (answers, db')
    → (any (λ v. v.id == self.id) (individual_owners krate db) ≡ true)
      × (individual_owners krate db' ≢ [])
unfolding modify_owners
modify_owners-owned env add krate self logins db answers db' h =
    let (r, e, k) = bind-eq-ok (rights env self (owners krate db)) _ h in
    let (allowed, f, l) = bind-eq-ok (only_full r) _ k in
    let own : any (λ v. v.id == self.id) (individual_owners krate db) ≡ true =
      (rights_iff env self krate db).0 (e ∙ ap (λ r. ok r) (only_full-full r f)) in
    (own, owned_after env add krate self logins db answers db' own l)
