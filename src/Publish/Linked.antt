-- ===== src/Publish/Linked.antt =====
-- src/models/keyword.rs and src/models/category.rs: the keywords and the categories of a crate.
use cargo_website.Base.{
  ℕ, suc, Bool, not, List, [], ◌∷◌, ◌++◌, map, if◌then◌else◌, ◌==◌, filter, any,
}
use cargo_website.Base.Text.{Text, text_eq}
use cargo_website.Publish.Tables.{Keyword, Category, Database}

-- `ON CONFLICT DO NOTHING`: a keyword that is there already, also from this statement, is left out.
unfoldable pub insert_keyword : Text → Database → Database
insert_keyword name db = if any (λ k. text_eq k.keyword name) db.keywords then db else record db {
  keywords = db.keywords ++ record { id = db.next_keyword_id; keyword = name } ∷ [];
  next_keyword_id = suc db.next_keyword_id;
}

unfoldable pub insert_keywords : List Text → Database → Database
insert_keywords [] db = db
insert_keywords (name ∷ names) db = insert_keywords names (insert_keyword name db)

abbrev pub is_named : List Text → Keyword → Bool
is_named names k = any (λ name. text_eq k.keyword name) names

unfoldable pub find_or_create_all : (Text → Text) → List Text → Database → List Keyword × Database
find_or_create_all to_lowercase names db =
    let lowercase_names = map to_lowercase names in
    let db' = insert_keywords lowercase_names db in
    (filter (is_named lowercase_names) db'.keywords, db')

unfoldable pub update_keywords : (Text → Text) → ℕ → List Text → Database → Database
update_keywords to_lowercase krate names db =
    let (found, db') = find_or_create_all to_lowercase names db in
    let crate_keywords = map (λ k. record { crate_id = krate; keyword_id = k.id }) found in
    record db' {
      crates_keywords =
          filter (λ r. not (r.crate_id == krate)) db'.crates_keywords ++ crate_keywords;
    }

unfoldable pub by_slugs_case_sensitive : List Text → List Category → List Category
by_slugs_case_sensitive slugs categories =
    filter (λ c. any (λ s. text_eq c.slug s) slugs) categories

-- The slugs that are no category's, and the new tables.
unfoldable pub update_categories : ℕ → List Text → Database → List Text × Database
update_categories krate slugs db =
    let found = by_slugs_case_sensitive slugs db.categories in
    let crate_categories = map (λ c. record { crate_id = krate; category_id = c.id }) found in
    (
      filter (λ s. not (any (λ c. text_eq c.slug s) found)) slugs,
      record db {
        crates_categories =
            filter (λ r. not (r.crate_id == krate)) db.crates_categories ++ crate_categories;
      },
    )
