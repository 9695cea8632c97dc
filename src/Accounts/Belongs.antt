-- ===== src/Accounts/Belongs.antt =====
-- To which address a token for the confirmation of emails belongs, and what keeps it there.
use cargo_website.Base.{
  ◌≡◌, ◌≢◌, ◌∙◌, sym, subst, inl, inr, true, false, List, [], ◌∷◌, Any, All, All-map,
}
use cargo_website.Base.Text.{Text}
use cargo_website.Accounts.{Email, Mail, State}

-- All mails with the token went to the address, and all rows with it have the address.
pub record Belongs (token address : Text) (s : State) : Type 0 where
  pub mailed : All (λ (m : Mail). m.token ≡ token → m.to ≡ address) s.mails
  pub stored : All (λ (e : Email). e.token ≡ token → e.email ≡ address) s.emails

-- The row was confirmed with a token that belongs to its address.
abbrev pub IsConfirmed : List Text → State → Email → Type 0
IsConfirmed confirmed s e = (t : Text) × Any (λ u. u ≡ t) confirmed × Belongs t e.email s

pub record Inv (confirmed : List Text) (s : State) : Type 0 where
  pub own : All (λ (e : Email). Belongs e.token e.email s) s.emails
  pub verified : All (λ (e : Email). e.verified ≡ true → IsConfirmed confirmed s e) s.emails

-- A token that is drawn was not drawn, and not guessed, before.
pub record IsFresh (token : Text) (confirmed : List Text) (s : State) : Type 0 where
  pub not_mailed : All (λ (m : Mail). m.token ≢ token) s.mails
  pub not_stored : All (λ (e : Email). e.token ≢ token) s.emails
  pub not_confirmed : All (λ u. u ≢ token) confirmed

-- How a row comes from those before, where `token` is drawn for `address`.
pub data Follows (token address : Text) (s : State) (e' : Email) : Type 0 where
  kept :
      (e : Email)
      → Any (λ y. y ≡ e) s.emails
      → e'.token ≡ e.token
      → e'.email ≡ e.email
      → (e'.verified ≡ true → e.verified ≡ true)
      → Follows token address s e'
  renewed :
      (e : Email)
      → Any (λ y. y ≡ e) s.emails
      → e'.token ≡ token
      → e'.email ≡ address
      → e.email ≡ address
      → (e'.verified ≡ true → e.verified ≡ true)
      → Follows token address s e'
  reset : e'.token ≡ token → e'.email ≡ address → e'.verified ≡ false → Follows token address s e'

-- And a mail.
pub data Sends (token address : Text) (s : State) (m : Mail) : Type 0 where
  before : Any (λ y. y ≡ m) s.mails → Sends token address s m
  drawn : m.token ≡ token → m.to ≡ address → Sends token address s m
  again :
      (e : Email)
      → Any (λ y. y ≡ e) s.emails
      → m.token ≡ e.token
      → m.to ≡ e.email
      → Sends token address s m

pub All-lookup {κ} :
    {A : Type 0} (P : A → Type κ) (xs : List A) (x : A) → All P xs → Any (λ y. y ≡ x) xs → P x
All-lookup P [] x h m = elim m [ ]
All-lookup P (y ∷ xs) x h (inl e) = subst P e h.0
All-lookup P (y ∷ xs) x h (inr m) = All-lookup P xs x h.1 m

module _ (token address : Text) (confirmed : List Text) (s s' : State)
    (fresh : IsFresh token confirmed s) (rows : All (Follows token address s) s'.emails)
    (mails : All (Sends token address s) s'.mails) where
  -- A token that was there before stays where it belongs.
  Belongs-kept : (t a : Text) → t ≢ token → Belongs t a s → Belongs t a s'
  Belongs-kept t a n b = record {
    mailed = All-map (λ m sends e. mail m sends e) s'.mails mails;
    stored = All-map (λ e' follows k. row e' follows k) s'.emails rows;
  }
    where
      mail : (m : Mail) → Sends token address s m → m.token ≡ t → m.to ≡ a
      mail m (before i) k = All-lookup (λ (m : Mail). m.token ≡ t → m.to ≡ a) s.mails m b.mailed i k
      mail m (drawn e _) k = absurd (n (sym k ∙ e))
      mail m (again e i p q) k =
          q
          ∙ All-lookup (λ (e : Email). e.token ≡ t → e.email ≡ a) s.emails e b.stored i (sym p ∙ k)

      row : (e' : Email) → Follows token address s e' → e'.token ≡ t → e'.email ≡ a
      row e' (kept e i p q _) k =
          q
          ∙ All-lookup (λ (e : Email). e.token ≡ t → e.email ≡ a) s.emails e b.stored i (sym p ∙ k)
      row e' (renewed _ _ p _ _ _) k = absurd (n (sym k ∙ p))
      row e' (reset p _ _) k = absurd (n (sym k ∙ p))

  -- The drawn one belongs to the address that it was drawn for.
  Belongs-drawn : Belongs token address s'
  Belongs-drawn = record {
    mailed = All-map (λ m sends e. mail m sends e) s'.mails mails;
    stored = All-map (λ e' follows k. row e' follows k) s'.emails rows;
  }
    where
      mail : (m : Mail) → Sends token address s m → m.token ≡ token → m.to ≡ address
      mail m (before i) k =
          absurd (All-lookup (λ (m : Mail). m.token ≢ token) s.mails m fresh.not_mailed i k)
      mail m (drawn _ q) k = q
      mail m (again e i p _) k =
          absurd
            (All-lookup (λ (e : Email). e.token ≢ token) s.emails e fresh.not_stored i (sym p ∙ k))

      row : (e' : Email) → Follows token address s e' → e'.token ≡ token → e'.email ≡ address
      row e' (kept e i p _ _) k =
          absurd
            (All-lookup (λ (e : Email). e.token ≢ token) s.emails e fresh.not_stored i (sym p ∙ k))
      row e' (renewed _ _ _ q _ _) k = q
      row e' (reset _ q _) k = q

  confirmed_kept :
      (e : Email) (a : Text)
      → e.email ≡ a
      → IsConfirmed confirmed s e
      → (t : Text) × Any (λ u. u ≡ t) confirmed × Belongs t a s'
  confirmed_kept e a q (t, i, b) = (
    t,
    i,
    Belongs-kept t a (λ k. All-lookup (λ u. u ≢ token) confirmed t fresh.not_confirmed i k)
        (subst (λ z. Belongs t z s) q b),
  )

  pub Inv-follows : Inv confirmed s → Inv confirmed s'
  Inv-follows inv = record {
    own = All-map (λ e' f. own_row e' f) s'.emails rows;
    verified = All-map (λ e' f v. verified_row e' f v) s'.emails rows;
  }
    where
      own_row : (e' : Email) → Follows token address s e' → Belongs e'.token e'.email s'
      own_row e' (kept e i p q _) =
          subst (λ z. Belongs z e'.email s') (sym p)
            (subst (λ z. Belongs e.token z s') (sym q)
              (Belongs-kept e.token e.email
                (λ k. All-lookup (λ (e : Email). e.token ≢ token) s.emails e fresh.not_stored i k)
                (All-lookup (λ (e : Email). Belongs e.token e.email s) s.emails e inv.own i)))
      own_row e' (renewed _ _ p q _ _) =
          subst (λ z. Belongs z e'.email s') (sym p)
            (subst (λ z. Belongs token z s') (sym q) Belongs-drawn)
      own_row e' (reset p q _) =
          subst (λ z. Belongs z e'.email s') (sym p)
            (subst (λ z. Belongs token z s') (sym q) Belongs-drawn)

      before_row :
          (e : Email) → Any (λ y. y ≡ e) s.emails → e.verified ≡ true → IsConfirmed confirmed s e
      before_row e i v =
          All-lookup (λ (e : Email). e.verified ≡ true → IsConfirmed confirmed s e) s.emails e
            inv.verified i v

      verified_row :
          (e' : Email)
          → Follows token address s e'
          → e'.verified ≡ true
          → IsConfirmed confirmed s' e'
      verified_row e' (kept e i p q f) v = confirmed_kept e e'.email (sym q) (before_row e i (f v))
      verified_row e' (renewed e i p q r f) v =
          confirmed_kept e e'.email (r ∙ sym q) (before_row e i (f v))
      verified_row e' (reset _ _ f) v = absurd (cc)
