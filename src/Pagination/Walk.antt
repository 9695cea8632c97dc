-- ===== src/Pagination/Walk.antt =====
-- From page to page: the links lead where they say, and the windows of rows meet.
use cargo_website.Base.{
  ℕ, suc, ◌+◌, ◌-◌, ◌*◌, ◌%◌, ◌≤◌, ◌<◌, ◌≡◌, ◌↔◌, ◌∙◌, ap, sym, subst, false, [], ◌∷◌, none, some,
  refl, arith, ok, ltb, ◌==◌, length,
}
use cargo_website.Base.Text.{Text, codes, text_eq}
use cargo_website.Base.Decimal.{to_string, parse_u32-to_string}
use cargo_website.Base.Words.{u32_mod}
use cargo_website.Pagination.{
  Page, numeric, seek, unspecified, PaginationOptions, PaginationOptionsBuilder, Request, Paginated,
  Params, offset, is_blocked, gather, query_with_params, next_of_page, prev_of_page,
  next_page_params, prev_page_params,
}
use cargo_website.Pagination.Gather.{
  Asks, by_number, by_seek, by_default, AsksRows, given, ten, gather_iff,
}

-- The number of a page; the first page, if the request named none.
abbrev pub IsPage : Page → ℕ → Type 0
IsPage (numeric p) n = p ≡ n
IsPage (seek _) n = ⊥
IsPage unspecified n = n ≡ 1

same_rows :
    (self : PaginationOptionsBuilder) (req : Request) (text : Text) (k : ℕ)
    → AsksRows self req k
    → AsksRows self (record req { page_param = some text }) k
same_rows self req text k (given s _ e f h) = given s k e f h
same_rows self req text _ (ten e) = ten e

gather_number :
    (self : PaginationOptionsBuilder) (req : Request) (n k : ℕ)
    → req.page_param ≡ some (to_string n)
    → req.seek_param ≡ none
    → 1 ≤ n
    → n < u32_mod
    → is_blocked self.limits req.user_agent n ≡ false
    → AsksRows self req k
    → (gather self req).1 ≡ ok (record { page = numeric n; per_page = k })
gather_number self req n k e f h small free rows =
    (gather_iff self req _).1
      (by_number (to_string n) n e f (parse_u32-to_string n small) h free, rows)

not_short : (k n : ℕ) → k ≤ n → ltb n k ≡ false
not_short k n h = ground arith

-- The link to a page.
abbrev link_to : ℕ → Params
link_to n = (codes "page", to_string n) ∷ []

next_link :
    (page : Page) (n : ℕ)
    → IsPage page n
    → n + 1 < u32_mod
    → next_of_page page ≡ some (link_to (n + 1))
next_link (numeric q) n e h = ap (λ z. some (link_to z)) (omega arith)
next_link (seek _) n e h = elim e [ ]
next_link unspecified n e h = ap (λ z. some (link_to z)) (omega arith)

prev_link : (n : ℕ) → 1 ≤ n → n + 1 < u32_mod → prev_of_page (numeric (n + 1)) ≡ some (link_to n)
prev_link n h small = rw (not_first n h) (ap (λ z. some (link_to z)) (omega arith))
  where
    not_first : (k : ℕ) → 1 ≤ k → (k + 1 == 1) ≡ false
    not_first k h = ground arith

module _ (self : PaginationOptionsBuilder) (req : Request) where
  -- A request for a page by its number, or for none, has no `seek`.
  no_seek : (page : Page) (n : ℕ) → IsPage page n → Asks self req page → req.seek_param ≡ none
  no_seek _ n e (by_number _ _ _ f _ _ _) = f
  no_seek _ n e (by_seek _ _ _ _) = elim e [ ]
  no_seek _ n e (by_default _ f) = f

  follow_link :
      (options : PaginationOptions) (m n : ℕ)
      → (gather self req).1 ≡ ok options
      → IsPage options.page m
      → 1 ≤ n
      → n < u32_mod
      → is_blocked self.limits req.user_agent n ≡ false
      → (gather self (query_with_params req (link_to n))).1
        ≡ ok (record { page = numeric n; per_page = options.per_page })
  unfolding query_with_params text_eq
  follow_link options m n g e h small free =
      let (page, rows) = (gather_iff self req options).0 g in
      gather_number self (record req { page_param = some (to_string n) }) n options.per_page refl
        (no_seek options.page m e page) h small free (same_rows self req (to_string n) _ rows)

module _ {ℓ} {A : Type ℓ} (self : PaginationOptionsBuilder) (req : Request) (p : Paginated A) where
  -- If a page is full and was asked for by a request that is accepted, then it has a link to the
  -- next page, and the request that this link makes, its parameters replacing those of their names,
  -- is accepted too, unless the client is blocked from that page, and asks for the page with the
  -- next number and as many rows, as long as the number fits a `u32`.
  pub follow_next :
      (n : ℕ)
      → (gather self req).1 ≡ ok p.options
      → IsPage p.options.page n
      → n + 1 < u32_mod
      → p.options.per_page ≤ length p.records_and_total
      → is_blocked self.limits req.user_agent (n + 1) ≡ false
      → (link : Params) × (next_page_params p ≡ some link)
        × ((gather self (query_with_params req link)).1
            ≡ ok (record { page = numeric (n + 1); per_page = p.options.per_page }))
  unfolding next_page_params
  follow_next n g e small full free = (
    link_to (n + 1),
    rw (not_short p.options.per_page (length p.records_and_total) full)
        (next_link p.options.page n e small),
    follow_link self req p.options n (n + 1) g e (omega arith) small free,
  )

  -- If page `n + 1`, with `n` at least 1 and `n + 1` below 2^32, was asked for by a request that is
  -- accepted, then it has a link to the previous page, and the request that this link makes asks for
  -- page `n` and as many rows, unless the client is blocked from that page.
  pub follow_prev :
      (n : ℕ)
      → (gather self req).1 ≡ ok p.options
      → p.options.page ≡ numeric (n + 1)
      → 1 ≤ n
      → n + 1 < u32_mod
      → is_blocked self.limits req.user_agent n ≡ false
      → (link : Params) × (prev_page_params p ≡ some link)
        × ((gather self (query_with_params req link)).1
            ≡ ok (record { page = numeric n; per_page = p.options.per_page }))
  unfolding prev_page_params
  follow_prev n g e h small free = (
    link_to n,
    rw (e, prev_page_params) (prev_link n h small),
    follow_link self req p.options (n + 1) n g (subst (λ z. IsPage z (n + 1)) (sym e) refl) h
        (omega arith) free,
  )

row_before : (n : ℕ) → n < u32_mod → (suc n + u32_mod - 1) % u32_mod ≡ n
row_before n h = omega arith

wrapped : (a : ℕ) → a % u32_mod ≡ a → a < u32_mod
wrapped a e = omega arith

-- The rows of page `n + 1`, for a page number that fits a `u32`, start behind those of the `n`
-- pages before it exactly if the number of those rows fits a `u32`.
pub offset_iff :
    (n k : ℕ)
    → n < u32_mod
    → (offset (record { page = numeric (suc n); per_page = k }) ≡ some (n * k)) ↔ (n * k < u32_mod)
unfolding offset
offset_iff n k h = rw (row_before n h) (λ e. wrapped (n * k) (cc), λ small. ap some (omega arith))

-- If the number of the next page and the rows before it fit a `u32`, the window of the next page
-- starts where this one ends.
pub offset_next :
    (n k : ℕ)
    → suc n < u32_mod
    → suc n * k < u32_mod
    → (o : ℕ) × (offset (record { page = numeric (suc n); per_page = k }) ≡ some o)
      × (offset (record { page = numeric (suc (suc n)); per_page = k }) ≡ some (o + k))
offset_next n k small h = (
  n * k,
  (offset_iff n k (omega arith)).1 (omega arith),
  (offset_iff (suc n) k small).1 h ∙ ap some (omega arith),
)
