-- ===== src/Posts/Examples.antt =====
-- Searches, totals and thumbnails at small inputs (DataManager/posts.go, post_search.go).
use pbooru.Database.{has_key, snd_where, fst_where, pair_with}
use pbooru.Posts.Counts.Stale.{total_stale}
use mathlib.Core.Path.{subst}
use pbooru.Posts.Counts.Totals.{total_exact}
use pbooru.Posts.Counts.Removal.{IsKeyed, set_and_reset-IsFresh}
use pbooru.Posts.Sizes.{size_unit, size_unit_bounds}
use pbooru.Posts.Search.Exact.{wanted, sel_exact, has_any, has_all}
use pbooru.Posts.Search.Ordered.{res-IsOrdered}
use pbooru.Posts.Search.Precedes.{IsOrdered}
use pbooru.Posts.Search.Groups.{IsBest, groups}
use pbooru.Posts.OrderBy.{by_insertion}
use pbooru.Posts.Search.Pages.{pages, pages_exact}
use pbooru.Posts.Search.{
  total, sel, res, count_of, total_of, where_clause, take, count_id, joins, drop, cached_count,
  join_all, before, cc_set, join, is_random, cc_insert, times, cc_get, count_rows, filtered,
}
use pbooru.Posts.Counts.{IsFresh}
use pbooru.Tags.Store.{count_posts}
use pbooru.Posts.{
  Post, Tables, World, Criteria, PostCollector, set_and_reset, CountRow, score, desc, of,
  set_removed, reset_cache_tags, reset_cache_tag, cc_purge, clear_empty,
}
use pbooru.Prelude.{
  All, Bool, List, [], arith, false, inl, keep, length, ok, refl, some, sym, true, ℕ, ◌&&◌, ◌*◌,
  ◌+◌, ◌<◌, ◌==◌, ◌∷◌, ◌≡◌, ◌≤◌, if◌then◌else◌, mem,
}
use pbooru.Posts.Show.{Thumb, closest_thumbnail, IsIn, largest, closest, closest_thumbnail_exact}

abbrev post1 : Post
post1 = record { id = 1; removed = false; mime = 4; alt_group = 1; score = 3 }

abbrev post2 : Post
post2 = record { id = 2; removed = false; mime = 4; alt_group = 2; score = 5 }

abbrev post3 : Post
post3 = record { id = 3; removed = true; mime = 4; alt_group = 3; score = 9 }

abbrev tables : Tables
tables = record {
  posts = post1 ∷ post2 ∷ post3 ∷ [];
  post_tag_mappings = (1, 10) ∷ (1, 11) ∷ (2, 10) ∷ (3, 10) ∷ [];
  tombstone = (77, 2) ∷ [];
}

abbrev world : World
world = record {
  tables = tables;
  total_posts = 0;
  search_count_cache = [];
  next_cache = 1;
  search_count_tags = [];
  purged_searches = [];
  purged_posts = [];
}

-- tag 10, without tag 12
abbrev criteria : Criteria
criteria = record {
  and = 10 ∷ [];
  or = [];
  filter = 12 ∷ [];
  unless = 11 ∷ [];
  mime_ids = 4 ∷ [];
  alt_group = 0;
  collect_alts = false;
  tombstone = false;
}

abbrev collector : PostCollector
collector = record { empty_set = false; search = criteria; order = score }

-- without tag 11
abbrev without : Criteria
without = record {
  and = [];
  or = [];
  filter = 11 ∷ [];
  unless = [];
  mime_ids = [];
  alt_group = 0;
  collect_alts = false;
  tombstone = false;
}

abbrev without_collector : PostCollector
without_collector = record { empty_set = false; search = without; order = desc }

keyed : IsKeyed tables
unfolding count_posts
keyed = ((refl, (refl, (refl, (refl, tt)))), λ p. ground arith)

world-IsFresh : IsFresh world
world-IsFresh = (tt, λ ne. absurd (ne refl))

abbrev counted : World
counted = record world {
  search_count_cache = record { id = 1; str = of criteria; count = 2 } ∷ [];
  next_cache = 2;
  search_count_tags = (1, 10) ∷ (1, 12) ∷ (1, 11) ∷ [];
}

total-counted : total collector world ≡ (2, counted)
unfolding total total_of count_id cached_count cc_set cc_insert cc_get count_of sel where_clause
    joins join_all join times count_rows filtered fst_where pair_with
total-counted = refl

sel_runs : (sel criteria tables ≡ post1 ∷ post2 ∷ []) × (sel without tables ≡ post2 ∷ [])
unfolding sel where_clause joins join_all join times count_rows filtered fst_where
sel_runs = (refl, refl)

res_runs : res by_insertion collector tables ≡ post2 ∷ post1 ∷ []
unfolding res before sel where_clause joins join_all join times count_rows filtered fst_where
res_runs = refl

sel_exact_example : sel criteria tables ≡ keep (wanted criteria tables) tables.posts
sel_exact_example = sel_exact criteria tables keyed.0 (λ p _. keyed.1 p)

total_exact_example :
    ((total collector world).0 ≡ count_of criteria tables) × IsFresh (total collector world).1
total_exact_example = total_exact collector world world-IsFresh (inl refl)

counted-IsFresh : IsFresh counted
counted-IsFresh = subst (λ r. IsFresh r.1) total-counted total_exact_example.1

-- post 1 is removed: the search for its tag is counted anew
abbrev removed : World
removed = record world {
  tables = record tables { posts = record post1 { removed = true } ∷ post2 ∷ post3 ∷ [] };
  next_cache = 2;
  purged_searches = 10 ∷ 0 ∷ 11 ∷ 0 ∷ [];
  purged_posts = 1 ∷ [];
}

set_and_reset_runs : set_and_reset true 1 counted ≡ ok removed
unfolding set_and_reset set_removed reset_cache_tags reset_cache_tag cc_purge clear_empty snd_where
    fst_where has_key
set_and_reset_runs = refl

set_and_reset-IsFresh_example : IsFresh removed
set_and_reset-IsFresh_example =
    set_and_reset-IsFresh true 1 counted removed keyed counted-IsFresh set_and_reset_runs

pages_exact_example :
    pages by_insertion (λ posts. posts) collector 1 2 0 world
    ≡ take (2 * 1) (drop 0 (res by_insertion collector tables))
pages_exact_example =
    pages_exact by_insertion (λ posts. posts) collector 1 2 0 world world-IsFresh (inl refl)
      (unfold is_random in refl) refl

res-IsOrdered_example :
    IsOrdered score (res by_insertion collector tables)
    × (false ≡ false
        → (test : Post → Bool)
        → length (keep test (res by_insertion collector tables))
          ≡ length (keep (λ p. wanted criteria tables p && test p) tables.posts))
    × (false ≡ true
        → ((g : ℕ)
            → length (keep (λ p. p.alt_group == g) (res by_insertion collector tables))
              ≡ (if mem g (groups (keep (wanted criteria tables) tables.posts)) then 1 else 0))
          × All
              (IsBest (keep (wanted criteria tables) tables.posts))
              (res by_insertion collector tables))
res-IsOrdered_example = res-IsOrdered by_insertion collector tables keyed (unfold is_random in refl)

-- the search without tag 11 is counted, and post 2, which has tag 10 only, is removed
abbrev row : CountRow
row = record { id = 1; str = of without; count = 1 }

abbrev cached : World
cached = record world {
  search_count_cache = row ∷ [];
  next_cache = 2;
  search_count_tags = (1, 11) ∷ [];
}

abbrev stale : World
stale = record cached {
  tables = record tables { posts = post1 ∷ record post2 { removed = true } ∷ post3 ∷ [] };
  purged_searches = 10 ∷ 0 ∷ [];
  purged_posts = 2 ∷ [];
}

stale_runs : set_and_reset true 2 cached ≡ ok stale
unfolding set_and_reset set_removed reset_cache_tags reset_cache_tag cc_purge clear_empty snd_where
    fst_where has_key
stale_runs = refl

counts_without : count_of without tables ≡ 1
unfolding count_of sel where_clause joins join_all join times count_rows filtered fst_where
counts_without = refl

wanted-without : length (keep (λ (x : Post). wanted without tables x && x.id == 2) tables.posts) ≡ 1
unfolding wanted where_clause has_any has_all
wanted-without = refl

total_stale_example : (total without_collector stale).0 ≡ count_of without stale.tables + 1
total_stale_example =
    total_stale without_collector 2 cached stale row [] keyed (unfold count_id in refl) refl refl
      refl (sym counts_without) (unfold has_key in refl) (λ t h. ground (arith, h)) wanted-without
      stale_runs

abbrev thumbs : List Thumb
thumbs =
    record { cid = 7; size = 1024 }
    ∷ (record { cid = 8; size = 256 } ∷ (record { cid = 9; size = 512 } ∷ []))

closest_runs : closest_thumbnail 300 thumbs ≡ record { cid = 9; size = 512 }
unfolding closest_thumbnail largest closest
closest_runs = refl

closest_thumbnail_exact_example :
    IsIn (closest_thumbnail 300 thumbs) thumbs
    × All
        (λ t.
          (300 ≤ t.size
            → (300 ≤ (closest_thumbnail 300 thumbs).size)
              × ((closest_thumbnail 300 thumbs).size ≤ t.size))
          × ((closest_thumbnail 300 thumbs).size < 300
              → t.size ≤ (closest_thumbnail 300 thumbs).size))
        thumbs
closest_thumbnail_exact_example =
    closest_thumbnail_exact 300 (record { cid = 7; size = 1024 })
      (record { cid = 8; size = 256 } ∷ (record { cid = 9; size = 512 } ∷ [])) (omega arith)

size_unit_bounds_example :
    (div : ℕ) × (exp : ℕ) × (size_unit 1500000 ≡ some (div, exp))
    × (exp < 6)
    × (div ≤ 1500000)
    × (1500000 < 1000 * div)
size_unit_bounds_example = size_unit_bounds 1500000 (omega arith) (omega arith)
