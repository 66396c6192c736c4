-- ===== src/Posts.antt =====
-- DataManager/posts.go: a post, the tables that a search reads, the cache of search counts with the
-- number of all posts, and `Remove` and `Reinstate`.
pub mod OrderBy
pub mod Search
pub mod Counts
pub mod Show
pub mod Sizes
mod Examples
use pbooru.Database.{Table, fst_where, has_key, snd_where, fst}
use pbooru.Prelude.{
  Bool, List, Outcome, [], err, if◌then◌else◌, keep, mem, not, ok, ℕ, ◌++◌, ◌==◌, ◌>>=◌, ◌∷◌,
}

pub data Order : Type 0 where
  asc desc score random : Order

pub record Post : Type 0 where
  pub id : ℕ
  pub removed : Bool
  pub mime : ℕ
  pub alt_group : ℕ
  pub score : ℕ

pub record Tables : Type 0 where
  pub posts : List Post
  -- (post_id, tag_id)
  pub post_tag_mappings : Table
  -- (e621_id, post_id), the rows with a post
  pub tombstone : Table

-- the fields of PostCollector that `countIDStr` prints
pub record Criteria : Type 0 where
  pub and : List ℕ
  pub or : List ℕ
  pub filter : List ℕ
  pub unless : List ℕ
  pub mime_ids : List ℕ
  pub alt_group : ℕ
  pub collect_alts : Bool
  pub tombstone : Bool

pub record PostCollector : Type 0 where
  pub empty_set : Bool
  pub search : Criteria
  pub order : Order

-- The text of countIDStr: NIL, 0, or the fields joined with " - ", which has them all back, since the
-- ids in them are digits.
pub data Key : Type 0 where
  nil all_posts : Key
  of : Criteria → Key

-- a row of search_count_cache
pub record CountRow : Type 0 where
  pub id : ℕ
  pub str : Key
  pub count : ℕ

pub record World : Type 0 where
  pub tables : Tables
  pub total_posts : ℕ
  pub search_count_cache : List CountRow
  pub next_cache : ℕ
  -- (cache_id, tag_id)
  pub search_count_tags : Table
  -- what C.Cache.Purge drops under "PC" and under "PST", latest last
  pub purged_searches : List ℕ
  pub purged_posts : List ℕ

pub data Error : Type 0 where
  invalid_post : Error

-- UPDATE posts SET removed = flag WHERE id = p
unfoldable pub set_removed : ℕ → Bool → List Post → List Post
set_removed p flag [] = []
set_removed p flag (x ∷ posts) =
    (if x.id == p then record x { removed = flag } else x) ∷ set_removed p flag posts

-- the foreign key of the mapping is ON DELETE CASCADE
unfoldable pub cc_purge : ℕ → World → World
cc_purge tag w =
    let doomed = fst_where (tag ∷ []) w.search_count_tags in
    record w {
      search_count_cache = keep (λ (c : CountRow). not (mem c.id doomed)) w.search_count_cache;
      search_count_tags = keep (λ row. not (mem (fst row) doomed)) w.search_count_tags;
    }

unfoldable pub reset_cache_tag : ℕ → World → World
unfolding cc_purge
reset_cache_tag tag w =
    cc_purge tag (record w { purged_searches = w.purged_searches ++ tag ∷ 0 ∷ [] })

unfoldable pub reset_cache_tags : List ℕ → World → World
unfolding reset_cache_tag
reset_cache_tags [] w = w
reset_cache_tags (t ∷ tags) w = reset_cache_tags tags (reset_cache_tag t w)

unfoldable pub clear_empty : World → World
clear_empty w = record w {
  search_count_cache =
      keep (λ (c : CountRow). has_key c.id w.search_count_tags) w.search_count_cache;
}

-- `Remove` with true, `Reinstate` with false
unfoldable pub set_and_reset : Bool → ℕ → World → Outcome Error World
unfolding set_removed reset_cache_tags clear_empty
set_and_reset flag p w =
    let marked = record w {
      tables = record w.tables { posts = set_removed p flag w.tables.posts };
      total_posts = 0;
    } in
    let reset = reset_cache_tags (snd_where (p ∷ []) w.tables.post_tag_mappings) marked in
    if p == 0
    then err invalid_post
    else ok (clear_empty (record reset { purged_posts = w.purged_posts ++ p ∷ [] }))
