-- ===== src/Posts/Search.antt =====
-- `group.sel` of DataManager/post_search.go, the statement that a search runs, and `Search2` of
-- DataManager/posts.go. A row of the joins is the post of it; a post has as many rows as the joins
-- give it.
pub mod Exact
pub mod Precedes
pub mod Groups
pub mod Ordered
pub mod Pages
use pbooru.Text.{text_eq}
use pbooru.Tags.Store.{count_posts, distinct}
use pbooru.Database.{Table, fst_where, fst, pair_with}
use pbooru.Posts.OrderBy.{OrderBy}
use pbooru.Posts.{
  asc, desc, score, random, nil, all_posts, of, Post, Criteria, PostCollector, Tables, Key,
  CountRow, World, Order,
}
use pbooru.Prelude.{
  Bool, List, Option, [], false, if◌then◌else◌, is_empty, keep, leb, length, ltb, map, mem, none,
  not, some, suc, true, zero, ℕ, ◌&&◌, ◌+◌, ◌==◌, ◌||◌, ◌∷◌, ◌++◌,
}

unfoldable pub times : ℕ → Post → List Post → List Post
times zero p rest = rest
times (suc n) p rest = p ∷ times n p rest

-- JOIN: `count` is the number of rows of the other table that fit the post
unfoldable pub join : (Post → ℕ) → List Post → List Post
unfolding times
join count [] = []
join count (p ∷ rows) = times (count p) p (join count rows)

-- rows of a post and a tag
unfoldable pub count_rows : ℕ → ℕ → Table → ℕ
count_rows p t [] = 0
count_rows p t ((x, k) ∷ ptm) = count_rows p t ptm + (if p == x && t == k then 1 else 0)

-- the joins a1, a2 … of the tags that a post must have
unfoldable pub join_all : List ℕ → Table → List Post → List Post
unfolding join count_rows
join_all [] ptm rows = rows
join_all (t ∷ tags) ptm rows = join_all tags ptm (join (λ (p : Post). count_rows p.id t ptm) rows)

-- the posts of the subquery f: with a tag of `filter`, and with none of `unless` where it is not empty
unfoldable pub filtered : Criteria → Table → List ℕ
filtered s ptm = fst_where s.filter (
    if is_empty s.unless
    then ptm
    else keep (λ row. not (mem (fst row) (fst_where s.unless ptm))) ptm)

unfoldable pub alt_of : ℕ → List Post → Option ℕ
alt_of p [] = none
alt_of p (x ∷ posts) = if x.id == p then some x.alt_group else alt_of p posts

-- a comparison with NULL selects nothing
unfoldable pub is_group : Option ℕ → ℕ → Bool
is_group none g = false
is_group (some h) g = g == h

-- the conditions that Search2 adds
unfoldable pub where_clause : Criteria → List Post → Post → Bool
unfolding alt_of is_group
where_clause s posts p =
    not p.removed
    && (is_empty s.mime_ids || mem p.mime s.mime_ids)
    && (if ltb 0 s.alt_group then is_group (alt_of s.alt_group posts) p.alt_group else true)

unfoldable pub joins : Criteria → Tables → List Post
unfolding join_all filtered join
joins s db =
    let o =
      if is_empty s.or
      then db.posts
      else keep (λ (p : Post). mem p.id (fst_where s.or db.post_tag_mappings)) db.posts in
    let a = join_all s.and db.post_tag_mappings o in
    let f =
      if is_empty s.filter
      then a
      else keep (λ (p : Post). not (mem p.id (filtered s db.post_tag_mappings))) a in
    if s.tombstone then join (λ (p : Post). count_posts p.id db.tombstone) f else f

unfoldable pub sel : Criteria → Tables → List Post
unfolding joins where_clause
sel s db = keep (where_clause s db.posts) (
    if not s.tombstone && is_empty s.or && is_empty s.and && is_empty s.filter
    then db.posts
    else joins s db)

-- SELECT COUNT(DISTINCT p.alt_group), or count(p.id)
unfoldable pub count_of : Criteria → Tables → ℕ
unfolding sel
count_of s db =
    if s.collect_alts
    then length (distinct (map (λ (p : Post). p.alt_group) (sel s db)))
    else length (sel s db)

unfoldable pub count_id : PostCollector → Key
count_id pc =
    if pc.empty_set
    then nil
    else if not pc.search.tombstone
        && is_empty pc.search.and
        && is_empty pc.search.or
        && is_empty pc.search.filter
        && is_empty pc.search.mime_ids
        && not pc.search.collect_alts
        && leb pc.search.alt_group 0
    then all_posts
    else of pc.search

unfoldable pub bool_eq : Bool → Bool → Bool
bool_eq true b = b
bool_eq false b = not b

unfoldable pub same_criteria : Criteria → Criteria → Bool
unfolding text_eq bool_eq
same_criteria a b =
    text_eq a.and b.and
    && text_eq a.or b.or
    && text_eq a.filter b.filter
    && text_eq a.unless b.unless
    && text_eq a.mime_ids b.mime_ids
    && a.alt_group == b.alt_group
    && bool_eq a.collect_alts b.collect_alts
    && bool_eq a.tombstone b.tombstone

unfoldable pub same_key : Key → Key → Bool
unfolding same_criteria
same_key nil nil = true
same_key all_posts all_posts = true
same_key (of a) (of b) = same_criteria a b
same_key _ _ = false

unfoldable pub cc_get : Key → List CountRow → Option ℕ
unfolding same_key
cc_get k [] = none
cc_get k (c ∷ rows) = if same_key c.str k then some c.count else cc_get k rows

-- The transaction that fails on the unique key of `str`, here the first argument, is rolled back.
unfoldable pub cc_insert : Option ℕ → Criteria → ℕ → World → World
cc_insert (some c) s n w = w
cc_insert none s n w = record w {
  search_count_cache = record { id = w.next_cache; str = of s; count = n } ∷ w.search_count_cache;
  next_cache = w.next_cache + 1;
  search_count_tags =
      pair_with w.next_cache (s.and ++ (s.or ++ (s.filter ++ s.unless))) ++ w.search_count_tags;
}

unfoldable pub cc_set : Criteria → ℕ → World → World
unfolding cc_get cc_insert
cc_set s n w = cc_insert (cc_get (of s) w.search_count_cache) s n w

-- SELECT count(*) FROM posts WHERE removed = false
unfoldable pub count_all : List Post → ℕ
count_all posts = length (keep (λ (p : Post). not p.removed) posts)

unfoldable pub get_total_posts : World → ℕ × World
unfolding count_all
get_total_posts w =
    if w.total_posts == 0
    then (count_all w.tables.posts, record w { total_posts = count_all w.tables.posts })
    else (w.total_posts, w)

unfoldable pub cached_count : Criteria → Option ℕ → World → ℕ × World
unfolding cc_set count_of
cached_count s (some c) w = (c, w)
cached_count s none w = (count_of s w.tables, cc_set s (count_of s w.tables) w)

unfoldable pub total_of : Key → World → ℕ × World
unfolding get_total_posts cached_count cc_get
total_of nil w = (0, w)
total_of all_posts w = get_total_posts w
total_of (of s) w = cached_count s (cc_get (of s) w.search_count_cache) w

-- TotalPosts of a collector that has not counted yet
unfoldable pub total : PostCollector → World → ℕ × World
unfolding count_id total_of
total pc w = total_of (count_id pc) w

-- the ORDER BY of each order
unfoldable pub before : Order → Post → Post → Bool
before asc p q = leb p.id q.id
before desc p q = leb q.id p.id
before score p q = ltb q.score p.score || p.score == q.score && leb q.id p.id
before random p q = true

-- SELECT DISTINCT ON (p.alt_group) … ORDER BY p.alt_group, p.score DESC, p.id DESC
unfoldable pub best_of : Post → List Post → Post
unfolding before
best_of p [] = p
best_of p (q ∷ posts) =
    best_of (if p.alt_group == q.alt_group && before score q p then q else p) posts

unfoldable pub distinct_groups : List Post → List Post → List Post
unfolding best_of
distinct_groups [] posts = []
distinct_groups (p ∷ rows) posts =
    let rest = distinct_groups rows posts in
    if mem p.alt_group (map (λ (q : Post). q.alt_group) rows) then rest else best_of p posts ∷ rest

unfoldable pub res : OrderBy → PostCollector → Tables → List Post
unfolding before distinct_groups sel
res B pc db =
    let rows = sel pc.search db in
    B.sort (before pc.order) (if pc.search.collect_alts then distinct_groups rows rows else rows)

unfoldable pub take : ℕ → List Post → List Post
take zero posts = []
take (suc n) [] = []
take (suc n) (p ∷ posts) = p ∷ take n posts

unfoldable pub drop : ℕ → List Post → List Post
drop zero posts = posts
drop (suc n) [] = []
drop (suc n) (p ∷ posts) = drop n posts

unfoldable pub is_random : Order → Bool
is_random random = true
is_random _ = false

-- The posts of a page. `shuffle` stands for ORDER BY RANDOM().
unfoldable pub search2 :
    OrderBy → (List Post → List Post) → PostCollector → ℕ → ℕ → World → List Post × World
unfolding take drop is_random
search2 B shuffle pc limit offset w =
    let (n, w') = total pc w in
    let start = if is_random pc.order then 0 else offset in
    let rows = if is_random pc.order then shuffle (res B pc w.tables) else res B pc w.tables in
    if pc.empty_set
    then ([], w)
    else ((if leb n 0 || ltb n start then [] else take limit (drop start rows)), w')
