-- ===== src/Pagination/Gather.antt =====
-- `gather`: which requests are accepted, and as what.
use cargo_website.Base.{
  ℕ, ◌≤◌, ◌≡◌, ◌↔◌, true, false, Option, none, some, refl, subst, arith, ok, bind-eq-ok,
}
use cargo_website.Base.Text.{Text}
use cargo_website.Base.Decimal.{parse_u32}
use cargo_website.Pagination.{
  Page, numeric, seek, unspecified, PaginationOptions, PaginationOptionsBuilder, Request,
  is_blocked, gather_page, gather_per_page, gather,
}

module _ (self : PaginationOptionsBuilder) (req : Request) where
  -- The request asks for this page, and may.
  pub data Asks : Page → Type 0 where
    by_number :
        (s : Text) (n : ℕ)
        → req.page_param ≡ some s
        → req.seek_param ≡ none
        → parse_u32 s ≡ some n
        → 1 ≤ n
        → is_blocked self.limits req.user_agent n ≡ false
        → Asks (numeric n)
    by_seek :
        (s : Text)
        → req.page_param ≡ none
        → req.seek_param ≡ some s
        → self.seek_enabled ≡ true
        → Asks (seek s)
    by_default : req.page_param ≡ none → req.seek_param ≡ none → Asks unspecified

  -- The number of rows that it asks for: ten by default, and a hundred at most.
  pub data AsksRows : ℕ → Type 0 where
    given :
        (s : Text) (k : ℕ)
        → req.per_page_param ≡ some s
        → parse_u32 s ≡ some k
        → k ≤ 100
        → AsksRows k
    ten : req.per_page_param ≡ none → AsksRows 10

  page_sound :
      (p s : Option Text) (page : Page)
      → req.page_param ≡ p
      → req.seek_param ≡ s
      → (gather_page self req p s).1 ≡ ok page
      → Asks page
  unfolding gather_page
  page_sound (some t) (some _) page e f h = absurd (ground arith)
  page_sound (some t) none (numeric n) e f h =
      by_number t n e f (ground arith) (ground arith) (ground arith)
  page_sound (some t) none (seek _) e f h = absurd (ground arith)
  page_sound (some t) none unspecified e f h = absurd (ground arith)
  page_sound none (some t) (numeric _) e f h = absurd (ground arith)
  page_sound none (some t) (seek s) e f h = by_seek s e (ground arith) (ground arith)
  page_sound none (some t) unspecified e f h = absurd (ground arith)
  page_sound none none (numeric _) e f h = absurd (ground arith)
  page_sound none none (seek _) e f h = absurd (ground arith)
  page_sound none none unspecified e f h = by_default e f

  page_complete :
      (page : Page) → Asks page → (gather_page self req req.page_param req.seek_param).1 ≡ ok page
  unfolding gather_page
  page_complete _ (by_number s n e f g h k) = rw (e, f, gather_page) (ground arith)
  page_complete _ (by_seek s e f g) = rw (e, f, gather_page) (ground arith)
  page_complete _ (by_default e f) = rw (e, f, gather_page)

  rows_sound :
      (p : Option Text) (k : ℕ) → req.per_page_param ≡ p → gather_per_page p ≡ ok k → AsksRows k
  unfolding gather_per_page
  rows_sound none k e h = subst AsksRows (ground arith) (ten e)
  rows_sound (some s) k e h = given s k e (ground arith) (ground arith)

  rows_complete : (k : ℕ) → AsksRows k → gather_per_page req.per_page_param ≡ ok k
  unfolding gather_per_page
  rows_complete k (given _ _ e f h) = rw (e, gather_per_page) (ground arith)
  rows_complete _ (ten e) = rw (e, gather_per_page)

  -- `gather` returns a page and a number of rows exactly if the request asks for them: the page by
  -- its number, from 1 on, with no `seek` beside it and no crawler behind it; by `seek`, where that is
  -- enabled; or by default; and at most a hundred rows.
  pub gather_iff :
      (options : PaginationOptions)
      → ((gather self req).1 ≡ ok options) ↔ (Asks options.page × AsksRows options.per_page)
  unfolding gather
  gather_iff options = (
    λ h.
        let (page, e, k) = bind-eq-ok (gather_page self req req.page_param req.seek_param).1 _ h in
        let (rows, f, k') = bind-eq-ok (gather_per_page req.per_page_param) _ k in
        (
          page_sound req.page_param req.seek_param options.page refl refl (ground arith),
          rows_sound req.per_page_param options.per_page refl (ground arith),
        ),
    λ h. rw (page_complete options.page h.0, rows_complete options.per_page h.1),
  )
