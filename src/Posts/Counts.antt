-- ===== src/Posts/Counts.antt =====
-- When the cached number of results of a search (DataManager/posts.go) is right.
pub mod Removal
pub mod Totals
pub mod Stale
use pbooru.Posts.Search.Exact.{wanted, has_all, has_any}
use pbooru.Posts.Search.{count_all, count_of, alt_of, where_clause}
use pbooru.Database.{Table, fst_where, has_row, has_row-fst_where, has_row-keep, fst}
use pbooru.Prelude.{
  All, All-keep, All-map, ==_iff, ==_refl, Bool, Bool-cases, List, [], arith, false, inl, inr,
  is_empty, keep, mem, not, true, ℕ, ◌&&◌, ◌++◌, ◌∷◌, ◌≡◌, ◌≢◌, refl, ◌==◌,
}
use pbooru.Posts.{
  Criteria, Tables, CountRow, World, cc_purge, of, reset_cache_tags, set_removed, reset_cache_tag,
  Post,
}

abbrev pub tags_of : Criteria → List ℕ
tags_of s = s.and ++ (s.or ++ (s.filter ++ s.unless))

-- a search that asks for some tag
abbrev pub is_anchored : Criteria → Bool
is_anchored s = not (is_empty s.and && is_empty s.or)

-- every tag of the row's search is mapped to the row
abbrev pub IsMapped : Table → CountRow → Type 0
IsMapped m c =
    (s : Criteria) (t : ℕ) → c.str ≡ of s → mem t (tags_of s) ≡ true → has_row c.id t m ≡ true

-- the count of an anchored search is right
abbrev pub IsRight : Tables → CountRow → Type 0
IsRight db c = (s : Criteria) → c.str ≡ of s → is_anchored s ≡ true → c.count ≡ count_of s db

abbrev pub IsFresh : World → Type 0
IsFresh w =
    All (λ c. IsMapped w.search_count_tags c × IsRight w.tables c) w.search_count_cache
    × (w.total_posts ≢ 0 → w.total_posts ≡ count_all w.tables.posts)

abbrev pub Avoids : List ℕ → CountRow → Type 0
Avoids tags c =
    (s : Criteria) (t : ℕ) → c.str ≡ of s → mem t tags ≡ true → mem t (tags_of s) ≡ false

purge_step :
    (R : CountRow → Type 0) (tag : ℕ) (w : World)
    → All (λ c. IsMapped w.search_count_tags c × R c) w.search_count_cache
    → All
        (λ c. IsMapped (cc_purge tag w).search_count_tags c × R c × Avoids (tag ∷ []) c)
        (cc_purge tag w).search_count_cache
unfolding cc_purge
purge_step R tag w a =
    All-keep _ _ _ w.search_count_cache
      (λ c p kept. (
        λ s t e m. ground (
          arith,
          has_row-keep (λ row. not (mem (fst row) (fst_where (tag ∷ []) w.search_count_tags))) c.id
              t w.search_count_tags,
          p.0 s t e m,
          kept,
        ),
        p.1,
        λ s t e m. avoided c p.0 kept s t e ((==_iff t tag).0 (ground (arith, m))),
      ))
      a
  where
    avoided :
        (c : CountRow)
        → IsMapped w.search_count_tags c
        → not (mem c.id (fst_where (tag ∷ []) w.search_count_tags)) ≡ true
        → (s : Criteria) (t : ℕ) → c.str ≡ of s
        → t ≡ tag
        → mem t (tags_of s) ≡ false
    avoided c m kept s t e same = elim (Bool-cases (mem t (tags_of s))) [
      | inl i ↦ absurd (
          ground (
            arith,
            has_row-fst_where c.id t (tag ∷ []) w.search_count_tags (m s t e i),
            ==_refl tag,
            same,
            kept,
          ))
      | inr o ↦ o
    ]

pub purge-All :
    (R : CountRow → Type 0) (tags : List ℕ) (w : World)
    → All (λ c. IsMapped w.search_count_tags c × R c) w.search_count_cache
    → All
        (λ c. IsMapped (reset_cache_tags tags w).search_count_tags c × R c × Avoids tags c)
        (reset_cache_tags tags w).search_count_cache
unfolding reset_cache_tags reset_cache_tag
purge-All R [] w a =
    All-map _ _ w.search_count_cache (λ c p. (p.0, p.1, λ s t e m. absurd (ground (arith, m)))) a
purge-All R (x ∷ tags) w a =
    let w' : World = record w { purged_searches = w.purged_searches ++ x ∷ 0 ∷ [] } in
    All-map _ _ _
      (λ c p. (
        p.0,
        p.1.0,
        λ s t e m. elim (Bool-cases (t == x)) [
          | inl i ↦ p.1.1 s t e (ground (arith, i))
          | inr o ↦ p.2 s t e (ground (arith, o, m))
        ],
      ))
      (purge-All (λ c. R c × Avoids (x ∷ []) c) tags (cc_purge x w')
        (All-map _ _ _ (λ c p. (p.0, (p.1, p.2))) (purge_step R x w' a)))

pub reset_tables : (tags : List ℕ) (w : World) → (reset_cache_tags tags w).tables ≡ w.tables
unfolding reset_cache_tags reset_cache_tag cc_purge
reset_tables [] w = refl
reset_tables (t ∷ tags) w = reset_tables tags (reset_cache_tag t w)

pub reset_total :
    (tags : List ℕ) (w : World) → (reset_cache_tags tags w).total_posts ≡ w.total_posts
unfolding reset_cache_tags reset_cache_tag cc_purge
reset_total [] w = refl
reset_total (t ∷ tags) w = reset_total tags (reset_cache_tag t w)
