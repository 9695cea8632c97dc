-- ===== src/Search/Walked.antt =====
-- Who follows the links from page to page by seek sees each crate once.
use cargo_website.Base.{
  ℕ, zero, suc, ◌≤◌, ◌<◌, ◌≡◌, ◌∙◌, refl, sym, ap, subst, Bool, true, false, List, [], ◌∷◌, ◌++◌,
  Option, none, some, ok, err, find, filter, take, drop, length, if◌then◌else◌, All,
  All-append_right, arith, ◌==◌,
}
use mathlib.Core.List.{append_assoc}
use cargo_website.Base.Text.{Text, text_eq}
use cargo_website.Pagination.{
  seek, unspecified, PaginationOptions, PageLimits, builder, limit_page_numbers, enable_seek,
  Request, gather, gather_page, gather_per_page, Params, query_with_params,
}
use cargo_website.Search.Planned.{plain, query_of-plain}
use cargo_website.Search.{
  SearchParams, Query, Client, Crate, Server, Listing, seek_name, last, next_of, page_by_seek,
  page_by_offset, page_by_key, page_of, query_of, search,
}

-- The crates that are seen from a request on by who follows the links, each of which replaces the
-- parameters of the request that it names; with fuel for the number of pages.
unfoldable pub walk :
    ℕ → Server → PageLimits → Client → SearchParams → Request → Option (List Crate)
walk zero server limits client params req = none
walk (suc fuel) server limits client params req =
    let rest = λ (ps : Params). walk fuel server limits client params (query_with_params req ps) in
    elim (search server limits client params req) [
      | err _ ↦ none
      | ok page ↦ elim page.next_page [
        | none ↦ some page.crates
        | some ps ↦ elim (rest ps) [ none ↦ none | some cs ↦ some (page.crates ++ cs) ]
      ]
    ]

-- The rows of the server in the order of their names, no name after itself.
abbrev pub IsAscending : Server → List Crate → Type 0
IsAscending server [] = Unit
IsAscending server (c ∷ cs) =
    (server.after c.name c.name ≡ false)
    × All
        (λ (d : Crate). (server.after d.name c.name ≡ true) × (server.after c.name d.name ≡ false))
        cs
    × IsAscending server cs

-- A key leads back to its crate.
abbrev pub HasKey : Server → Crate → Type 0
HasKey server c =
    (server.decode_seek (server.encode_seek c.id) ≡ some c.id)
    × (find (λ (d : Crate). d.id == c.id) server.crates ≡ some c)

all_after :
    (server : Server) (c : Crate) (post : List Crate)
    → All
        (λ (d : Crate). (server.after d.name c.name ≡ true) × (server.after c.name d.name ≡ false))
        post
    → filter (λ (d : Crate). server.after d.name c.name) post ≡ post
all_after server c [] h = refl
all_after server c (d ∷ post) h = rw (filter, h.0.0) (ap (λ z. d ∷ z) (all_after server c post h.1))

-- Behind a row stand those whose names come after its own.
filter-after :
    (server : Server) (pre : List Crate) (c : Crate) (post : List Crate)
    → IsAscending server (pre ++ c ∷ post)
    → filter (λ (d : Crate). server.after d.name c.name) (pre ++ c ∷ post) ≡ post
filter-after server [] c post h = rw (filter, h.0) (all_after server c post h.1)
filter-after server (p ∷ pre) c post h =
    let apart =
      All-append_right
        (λ (d : Crate). (server.after d.name p.name ≡ true) × (server.after p.name d.name ≡ false))
        pre (c ∷ post) h.1 in
    rw (filter, apart.0.1) (filter-after server pre c post h.2)

last-split :
    (c : Crate) (cs : List Crate)
    → (pre : List Crate) × (d : Crate) × (c ∷ cs ≡ pre ++ d ∷ []) × (last (c ∷ cs) ≡ some d)
last-split c [] = ([], c, refl, refl)
last-split c (d ∷ cs) = let (pre, e, p, q) = last-split d cs in (c ∷ pre, e, ap (λ z. c ∷ z) p, q)

take-drop : (n : ℕ) (cs : List Crate) → take n cs ++ drop n cs ≡ cs
take-drop zero cs = refl
take-drop (suc n) [] = refl
take-drop (suc n) (c ∷ cs) = ap (λ z. c ∷ z) (take-drop n cs)

length-drop_le : (n : ℕ) (cs : List Crate) → length (drop n cs) ≤ length cs
length-drop_le zero cs = omega arith
length-drop_le (suc n) [] = omega arith
length-drop_le (suc n) (c ∷ cs) = omega (arith, length-drop_le n cs)

module _ (server : Server) (limits : PageLimits) (client : Client) (params : SearchParams)
    (req : Request) (query : Query) (k : ℕ) (is_query : query_of client params ≡ ok query)
    (seeks : query.supports_seek ≡ true) (no_page : req.page_param ≡ none)
    (rows_asked : gather_per_page req.per_page_param ≡ ok (suc k))
    (keys : All (HasKey server) (server.run query))
    (ascending : IsAscending server (server.run query)) where
  abbrev page : List Crate → Listing
  page rows = record {
    total = length server.crates;
    next_page = next_of server (last (take (suc k) rows));
    prev_page = none;
    crates = take (suc k) rows;
  }

  abbrev Asks : Request → PaginationOptions → Type 0
  Asks r options =
      (gather (enable_seek (limit_page_numbers builder limits) query.supports_seek) r).1
      ≡ ok options

  Asks-first : req.seek_param ≡ none → Asks req (record { page = unspecified; per_page = suc k })
  unfolding gather gather_page
  Asks-first h = rw (gather, no_page, h, gather_page, rows_asked) refl

  Asks-next :
      (key : Text)
      → Asks (record req { seek_param = some key }) (record { page = seek key; per_page = suc k })
  unfolding gather gather_page
  Asks-next key = rw (gather, no_page, gather_page, seeks, rows_asked) refl

  by_seek :
      (options : PaginationOptions) (key : Option ℕ)
      → page_by_key server query options key ≡ page_by_seek server query options.per_page key
  unfolding page_by_key
  by_seek options key =
      ap
        (λ (b : Bool).
          if b
          then page_by_seek server query options.per_page key
          else ok (page_by_offset server query options))
        seeks

  -- The answer to the request without a key, and to one with the key of a crate.
  search_first :
      req.seek_param ≡ none → search server limits client params req ≡ ok (page (server.run query))
  unfolding search page_of page_by_key page_by_seek seek_name
  search_first h = rw (search, is_query, Asks-first h, page_of, page_by_key, seeks) refl

  search_next :
      (pre : List Crate) (c : Crate) (post : List Crate)
      → server.run query ≡ pre ++ c ∷ post
      → search server limits client params
          (record req { seek_param = some (server.encode_seek c.id) })
        ≡ ok (page post)
  unfolding search page_of page_by_seek seek_name
  search_next pre c post h =
      let has =
        All-append_right (HasKey server) pre (c ∷ post)
          (subst (λ z. All (HasKey server) z) h keys) in
      let rest = filter-after server pre c post (subst (λ z. IsAscending server z) h ascending) in
      rw
        (
          search,
          is_query,
          Asks-next (server.encode_seek c.id),
          page_of,
          has.0.0,
          by_seek (record { page = seek (server.encode_seek c.id); per_page = suc k }) (some c.id),
          page_by_seek,
          seek_name,
          has.0.1,
          h,
          rest,
        )
        refl

  -- From a page on, with a round for each crate that is left and one more.
  walk_rest :
      (fuel : ℕ) (pre rows : List Crate) (r : Request)
      → server.run query ≡ pre ++ rows
      → length rows < fuel
      → search server limits client params r ≡ ok (page rows)
      → ((key : Option Text) → record r { seek_param = key } ≡ record req { seek_param = key })
      → walk fuel server limits client params r ≡ some rows
  unfolding walk query_with_params text_eq
  walk_rest zero pre rows r split enough answer same = absurd (omega arith)
  walk_rest (suc fuel) pre [] r split enough answer same = rw (walk, answer) refl
  walk_rest (suc fuel) pre (c ∷ cs) r split enough answer same =
      let post = drop k cs in
      let (front, d, first_page, is_last) = last-split c (take k cs) in
      let whole : c ∷ cs ≡ front ++ d ∷ post =
        ap (λ z. c ∷ z) (sym (take-drop k cs))
        ∙ ap (λ z. z ++ post) first_page
        ∙ append_assoc front (d ∷ []) post in
      let split' : server.run query ≡ (pre ++ front) ++ d ∷ post =
        split ∙ ap (λ z. pre ++ z) whole ∙ sym (append_assoc pre front (d ∷ post)) in
      let next = record r { seek_param = some (server.encode_seek d.id) } in
      let answer' : search server limits client params next ≡ ok (page post) =
        ap (λ z. search server limits client params z) (same (some (server.encode_seek d.id)))
        ∙ search_next (pre ++ front) d post split' in
      let rest =
        walk_rest fuel (pre ++ front ++ d ∷ []) post next
          (split' ∙ sym (append_assoc (pre ++ front) (d ∷ []) post))
          (omega (arith, length-drop_le k cs)) answer' same in
      rw (walk, answer, is_last, rest) (ap (λ z. some (c ∷ z)) (take-drop k cs))

  walk-run :
      req.seek_param ≡ none
      → walk (suc (length (server.run query))) server limits client params req
        ≡ some (server.run query)
  walk-run h =
      walk_rest (suc (length (server.run query))) [] (server.run query) req refl (omega arith)
        (search_first h) (λ key. refl)

-- If the query of a request can be walked by seek, the request names no page and no key and asks for
-- at least one row, and the server returns all crates in ascending order and finds the crate of each
-- key, then to follow the links of the pages ends, after at most as many requests as there are
-- crates and one more, and shows each crate once, in the order of the names, whatever else the
-- request says.
pub walk-all :
    (server : Server) (limits : PageLimits) (client : Client) (params : SearchParams)
    (req : Request) (query : Query) (k : ℕ)
    → query_of client params ≡ ok query
    → query.supports_seek ≡ true
    → req.page_param ≡ none
    → req.seek_param ≡ none
    → gather_per_page req.per_page_param ≡ ok (suc k)
    → All (HasKey server) (server.run plain)
    → IsAscending server (server.run plain)
    → walk (suc (length (server.run plain))) server limits client params req
      ≡ some (server.run plain)
walk-all server limits client params req query k is seeks no_page no_key rows keys ascending =
    let same = query_of-plain client params query is seeks in
    let is_plain : query_of client params ≡ ok plain = is ∙ ap ok same in
    walk-run server limits client params req plain k is_plain refl no_page rows keys ascending
      no_key
