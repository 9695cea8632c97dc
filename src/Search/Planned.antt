-- ===== src/Search/Planned.antt =====
-- The lists that can be walked by seek are the plain ones.
use cargo_website.Base.{
  ◌≡◌, ◌∙◌, refl, sym, ap, subst, inl, inr, true, [], ◌∷◌, ◌++◌, Option, none, some, Result, ok,
  err, ok_injective, bind-eq-ok, Bool-cases, Option-cases,
}
use cargo_website.Base.Text.{Text, codes}
use cargo_website.Search.{
  SearchParams, Filter, followed_by, named, owned_by_user, owned_by_team, with_keywords,
  with_keyword, Query, Error, Client, name, start, filtered, is_text, with_text, with_category,
  number, by_letter, by_user, by_following, by_owner, with_one, includes_yanked, without_yanked,
  sorted, query_of, not_authenticated,
}

abbrev IsPlain : Query → Type 0
IsPlain q = q.supports_seek ≡ true → q ≡ start

filtered-IsPlain : (q : Query) (f : Filter) → IsPlain (filtered q f)
filtered-IsPlain q f h = absurd (cc)

ok-IsPlain :
    (q : Query) (f : Filter) (r : Query)
    → ◌≡◌ {A = Result Error Query} (ok (filtered q f)) (ok r)
    → IsPlain r
ok-IsPlain q f r e = subst IsPlain (ok_injective e) (filtered-IsPlain q f)

with_text-IsPlain : (params : SearchParams) → IsPlain (with_text params start)
with_text-IsPlain params = by_q params.q params.sort
  where
    by_q : (q sort : Option Text) → IsPlain (with_text (record params { q = q; sort = sort }) start)
    by_q none sort h = refl
    by_q (some []) sort h = absurd (cc)
    by_q (some (c ∷ cs)) sort h = absurd (cc)

with_category-IsPlain :
    (params : SearchParams) (q : Query) → IsPlain q → IsPlain (with_category params q)
with_category-IsPlain params q p = elim (Option-cases params.category) [
  | inl e ↦ rw (with_category, e) p
  | inr (cat, e) ↦ rw (with_category, e) (filtered-IsPlain q _)
]

by_letter-IsPlain :
    (client : Client) (t : Text) (q r : Query) → by_letter client t q ≡ ok r → IsPlain r
by_letter-IsPlain client [] q r e = cc
by_letter-IsPlain client (c ∷ t) q r e = ok-IsPlain q _ r e

by_user-IsPlain : (client : Client) (q r : Query) → by_user client q ≡ ok r → IsPlain r
by_user-IsPlain client q r e = elim (Option-cases client.user) [
  | inl f ↦ let no : by_user client q ≡ err not_authenticated = rw (by_user, f) refl in absurd (cc)
  | inr (id, f) ↦ ok-IsPlain q (followed_by id) r (sym (rw (by_user, f) refl) ∙ e)
]

by_following-IsPlain :
    (client : Client) (params : SearchParams) (q r : Query)
    → IsPlain q
    → by_following client params q ≡ ok r
    → IsPlain r
by_following-IsPlain client params q r p e = elim (Option-cases params.following) [
  | inr (x, f) ↦
      let same : by_following client params q ≡ by_user client q = rw (by_following, f) refl in
      by_user-IsPlain client q r (sym same ∙ e)
  | inl f ↦ elim (Option-cases params.ids) [
    | inr (ids, g) ↦ ok-IsPlain q (named ids) r (sym (rw (by_following, f, g) refl) ∙ e)
    | inl g ↦
        let same : by_following client params q ≡ ok q = rw (by_following, f, g) refl in
        subst IsPlain (ok_injective (sym same ∙ e)) p
  ]
]

by_owner-IsPlain :
    (client : Client) (params : SearchParams) (q r : Query)
    → IsPlain q
    → by_owner client params q ≡ ok r
    → IsPlain r
by_owner-IsPlain client params q r p e = elim (Option-cases (number params.user_id)) [
  | inr (id, f) ↦ ok-IsPlain q (owned_by_user id) r (sym (rw (by_owner, f) refl) ∙ e)
  | inl f ↦ elim (Option-cases (number params.team_id)) [
    | inr (id, g) ↦ ok-IsPlain q (owned_by_team id) r (sym (rw (by_owner, f, g) refl) ∙ e)
    | inl g ↦
        let same : by_owner client params q ≡ by_following client params q =
          rw (by_owner, f, g) refl in
        by_following-IsPlain client params q r p (sym same ∙ e)
  ]
]

with_one-IsPlain :
    (client : Client) (params : SearchParams) (q r : Query)
    → IsPlain q
    → with_one client params q ≡ ok r
    → IsPlain r
unfolding with_one
with_one-IsPlain client params q r p e = elim (Option-cases params.all_keywords) [
  | inr (kws, f) ↦
      ok-IsPlain q (with_keywords (client.lower_words kws)) r (sym (rw (with_one, f) refl) ∙ e)
  | inl f ↦ elim (Option-cases params.keyword) [
    | inr (kw, g) ↦ ok-IsPlain q (with_keyword kw) r (sym (rw (with_one, f, g) refl) ∙ e)
    | inl g ↦ elim (Option-cases params.letter) [
      | inr (t, k) ↦
          let same : with_one client params q ≡ by_letter client t q =
            rw (with_one, f, g, k) refl in
          by_letter-IsPlain client t q r (sym same ∙ e)
      | inl k ↦
          let same : with_one client params q ≡ by_owner client params q =
            rw (with_one, f, g, k) refl in
          by_owner-IsPlain client params q r p (sym same ∙ e)
    ]
  ]
]

without_yanked-IsPlain :
    (params : SearchParams) (q : Query) → IsPlain q → IsPlain (without_yanked params q)
without_yanked-IsPlain params q p = elim (Bool-cases (includes_yanked params.include_yanked)) [
  | inl e ↦ rw (without_yanked, e) p
  | inr e ↦ rw (without_yanked, e) (filtered-IsPlain q _)
]

-- The query behind the pages by seek.
abbrev pub plain : Query
plain = record start { orders = name ∷ [] }

sorted-plain :
    (sort : Option Text) (q : Query)
    → IsPlain q
    → (sorted sort q).supports_seek ≡ true
    → sorted sort q ≡ plain
unfolding sorted
sorted-plain sort q p h = elim (Bool-cases (is_text sort (codes "downloads"))) [
  | inl e ↦ absurd (cc)
  | inr e ↦ elim (Bool-cases (is_text sort (codes "recent-downloads"))) [
    | inl f ↦ absurd (cc)
    | inr f ↦ elim (Bool-cases (is_text sort (codes "recent-updates"))) [
      | inl g ↦ absurd (cc)
      | inr g ↦ elim (Bool-cases (is_text sort (codes "new"))) [
        | inl k ↦ absurd (cc)
        | inr k ↦
            let same : sorted sort q ≡ record q { orders = q.orders ++ name ∷ [] } =
              rw (sorted, e, f, g, k) refl in
            let is : q ≡ start = p (ap (λ (z : Query). z.supports_seek) (sym same) ∙ h) in
            same ∙ ap (λ (z : Query). record z { orders = z.orders ++ name ∷ [] }) is
      ]
    ]
  ]
]

-- A request whose list can be walked by seek asks for all crates, without any condition, in the
-- order of their names only.
pub query_of-plain :
    (client : Client) (params : SearchParams) (q : Query)
    → query_of client params ≡ ok q
    → q.supports_seek ≡ true
    → q ≡ plain
unfolding query_of
query_of-plain client params q h s =
    let (one, e, k) =
      bind-eq-ok (with_one client params (with_category params (with_text params start))) _ h in
    let p =
      with_one-IsPlain client params _ one
        (with_category-IsPlain params _ (with_text-IsPlain params)) e in
    let is = ok_injective k in
    sym is
    ∙ sorted-plain params.sort (without_yanked params one) (without_yanked-IsPlain params one p)
        (ap (λ (z : Query). z.supports_seek) is ∙ s)
