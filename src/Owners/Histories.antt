-- ===== src/Owners/Histories.antt =====
-- Any sequence of changes of owners and answers to invitations, for any crates.
use cargo_website.Base.{ℕ, ◌≡◌, ◌≢◌, subst, Bool, true, List, [], ok}
use cargo_website.Base.Text.{Text}
use cargo_website.Owners.Tables.{User, Tables, Env, Added, CrateOwnerInvitation}
use cargo_website.Owners.Invitations.{accept, decline}
use cargo_website.Owners.Modify.{modify_owners}
use cargo_website.Owners.Accepted.{accept-accepted}
use cargo_website.Owners.Modified.{individual_owners}
use cargo_website.Owners.Others.{
  has, has-insert_owner, modify_owners-has, not_empty-has, has-not_empty,
}

-- One request that succeeds; each has its own clock and its own answers of GitHub.
pub data Step (db db' : Tables) : Type 0 where
  modifying :
      (env : Env) (add : Bool) (krate : ℕ) (self : User) (logins : List Text) (answers : List Added)
      → modify_owners env add krate self logins db ≡ ok (answers, db')
      → Step db db'
  accepting : (env : Env) (i : CrateOwnerInvitation) → accept env i db ≡ ok db' → Step db db'
  declining : (env : Env) (i : CrateOwnerInvitation) → decline env i db ≡ db' → Step db db'

Step-has :
    (k : ℕ) {db db' : Tables}
    → Step db db'
    → has (individual_owners k db) ≡ true
    → has (individual_owners k db') ≡ true
unfolding decline
Step-has k {db = db} (modifying env add krate self logins answers e) h =
    modify_owners-has env k krate add self logins db answers _ e h
Step-has k {db = db} (accepting env i e) h =
    subst (λ d. has (individual_owners k d) ≡ true) (accept-accepted env i db _ e).1
      (has-insert_owner k db.users _ db.crate_owners h)
Step-has k {db = db} (declining env i e) h = subst (λ d. has (individual_owners k d) ≡ true) e h

pub data History (db : Tables) : Tables → Type 0 where
  start : History db db
  after : {db' db'' : Tables} → History db db' → Step db' db'' → History db db''

History-has :
    (k : ℕ) {db db' : Tables}
    → History db db'
    → has (individual_owners k db) ≡ true
    → has (individual_owners k db') ≡ true
History-has k start h = h
History-has k (after past step) h = Step-has k step (History-has k past h)

-- A crate that has an individual owner keeps one through any sequence of successful changes of
-- owners and answers to invitations, of this crate and of others.
pub History-owned :
    (krate : ℕ) (db db' : Tables)
    → History db db'
    → individual_owners krate db ≢ []
    → individual_owners krate db' ≢ []
History-owned krate db db' past h = has-not_empty _ (History-has krate past (not_empty-has _ h))
