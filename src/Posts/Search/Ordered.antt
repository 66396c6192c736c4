-- ===== src/Posts/Search/Ordered.antt =====
-- The order in which Search2 of DataManager/posts.go lists its posts.
use mathlib.Core.Path.{subst}
use pbooru.Duplicates.TagMove.Lowered.{mem-distinct}
use pbooru.Posts.Search.Exact.{wanted, sel_exact, keep-keep}
use pbooru.Posts.Counts.Removal.{IsKeyed}
use pbooru.Tags.Store.{distinct}
use pbooru.Posts.OrderBy.{OrderBy, Test}
use pbooru.Posts.Search.Groups.{IsBest, count-distinct_groups, distinct_groups-IsBest, groups}
use pbooru.Posts.Search.Precedes.{IsOrdered, IsSorted-IsOrdered, before_total, before_trans}
use pbooru.Posts.Search.{before, is_random, distinct_groups, res, count_of, sel}
use pbooru.Prelude.{
  All, Bool, Bool-cases, List, [], ap, arith, false, inl, inr, keep, length, refl, suc, true, ℕ,
  ◌&&◌, ◌∙◌, ◌∷◌, ◌≡◌, sym, if◌then◌else◌, mem, ◌==◌,
}
use pbooru.Posts.{Post, PostCollector, Tables}

length_all : (posts : List Post) → length (keep (λ (p : Post). true) posts) ≡ length posts
length_all [] = refl
length_all (p ∷ posts) = ap suc (length_all posts)

length-sort :
    (B : OrderBy) (test : Test) (posts : List Post) → length (B.sort test posts) ≡ length posts
length-sort B test posts =
    sym (length_all (B.sort test posts)) ∙ B.sort_count test (λ p. true) posts ∙ length_all posts

length-distinct_groups :
    (rows posts : List Post) → length (distinct_groups rows posts) ≡ length (distinct (groups rows))
unfolding distinct_groups distinct
length-distinct_groups [] posts = refl
length-distinct_groups (p ∷ rows) posts =
    ground (arith, length-distinct_groups rows posts, mem-distinct p.alt_group (groups rows))

-- as many posts are listed as are counted
pub length-res :
    (B : OrderBy) (pc : PostCollector) (db : Tables) → length (res B pc db) ≡ count_of pc.search db
unfolding res count_of
length-res B pc db = elim (Bool-cases pc.search.collect_alts) [
  | inl e ↦ rw e (
      length-sort B (before pc.order) (distinct_groups (sel pc.search db) (sel pc.search db))
      ∙ length-distinct_groups (sel pc.search db) (sel pc.search db))
  | inr e ↦ rw e (length-sort B (before pc.order) (sel pc.search db))
]

-- With one row for a post and a tag, and one tombstone for a post at most, a search lists its posts in
-- the order that is asked (by id up or down, or by score and then by id down), unless it is random. If
-- it does not collect alternatives, it lists every wanted post as often as the table has it, and no
-- other. If it does, it lists one post of each group that has a wanted post, and none of another group:
-- the wanted post of the group with the greatest score, and of these that with the greatest id.
pub res-IsOrdered :
    (B : OrderBy) (pc : PostCollector) (db : Tables)
    → IsKeyed db
    → is_random pc.order ≡ false
    → IsOrdered pc.order (res B pc db)
      × (pc.search.collect_alts ≡ false
          → (test : Post → Bool)
          → length (keep test (res B pc db))
            ≡ length (keep (λ p. wanted pc.search db p && test p) db.posts))
      × (pc.search.collect_alts ≡ true
          → ((g : ℕ)
              → length (keep (λ p. p.alt_group == g) (res B pc db))
                ≡ (if mem g (groups (keep (wanted pc.search db) db.posts)) then 1 else 0))
            × All (IsBest (keep (wanted pc.search db) db.posts)) (res B pc db))
unfolding res
res-IsOrdered B pc db (u, once) fixed =
    let rows = sel pc.search db in
    let listed = if pc.search.collect_alts then distinct_groups rows rows else rows in
    let rows_are : rows ≡ keep (wanted pc.search db) db.posts =
      sel_exact pc.search db u (λ p _. once p) in
    (
      IsSorted-IsOrdered pc.order (B.sort (before pc.order) listed)
          (B.sort_sorted (before pc.order) listed (before_trans pc.order) (before_total pc.order)),
      λ single test.
          B.sort_count (before pc.order) test listed
          ∙ ap (λ b. length (keep test (if b then distinct_groups rows rows else rows))) single
          ∙ ap (λ r. length (keep test r)) rows_are
          ∙ ap length (keep-keep test (wanted pc.search db) db.posts),
      λ many. (
        λ g.
            B.sort_count (before pc.order) (λ p. p.alt_group == g) listed
            ∙ ap
                (λ b. length (
                  keep (λ (p : Post). p.alt_group == g)
                    (if b then distinct_groups rows rows else rows)))
                many
            ∙ count-distinct_groups g rows rows
            ∙ ap (λ r. if mem g (groups r) then 1 else 0) rows_are,
        subst (λ r. All (IsBest r) (B.sort (before pc.order) listed)) rows_are
            (B.sort_all (before pc.order) (IsBest rows) listed (
              subst (λ b. All (IsBest rows) (if b then distinct_groups rows rows else rows))
                (sym many) (distinct_groups-IsBest rows))),
      ),
    )
