-- ===== src/Tags/Store.antt =====
-- The tables that the tag domain changes, and the writes of tagSetChain in DataManager/tag_set_q.go:
-- `recount` and `purgeCountCache`; `multiLogStmtFromSet` of DataManager/tag_log.go.
pub mod Counts
use pbooru.Prelude.{
  ℕ, zero, suc, ◌+◌, Bool, not, ◌&&◌, List, [], ◌∷◌, ◌++◌, map, length, mem, keep, ◌==◌,
  if◌then◌else◌, is_empty,
}
use pbooru.Database.{Table, fst, snd, fst_where}

pub record Store : Type 0 where
  -- (post_id, tag_id)
  pub post_tag_mappings : Table
  -- (alias_from, alias_to)
  pub alias : Table
  -- (parent_id, child_id)
  pub parent_tags : Table
  -- (tag_id, creator_id)
  pub dns_tag_mapping : Table
  -- (id, count) of `tags`
  pub tags : Table
  -- ids of `search_count_cache`
  pub search_count_cache : List ℕ
  -- (cache_id, tag_id) of `search_count_cache_tag_mapping`
  pub search_count_tags : Table
  -- the calls C.Cache.Purge("PC", id), latest last
  pub purged : List ℕ

-- SELECT count(tag_id) … GROUP BY id
unfoldable pub count_posts : ℕ → Table → ℕ
count_posts tag [] = 0
count_posts tag ((p, t) ∷ ptm) = count_posts tag ptm + (if tag == t then 1 else 0)

unfoldable pub recount_rows : List ℕ → Table → Table → Table
recount_rows tags ptm [] = []
recount_rows tags ptm ((id, count) ∷ rows) =
    (id, (if mem id tags then count_posts id ptm else count)) ∷ recount_rows tags ptm rows

unfoldable pub recount : List ℕ → Store → Store
recount tags s = record s { tags = recount_rows tags s.post_tag_mappings s.tags }

-- the foreign key of the mapping is ON DELETE CASCADE
unfoldable pub purge_count_cache : List ℕ → Store → Store
purge_count_cache tags s =
    let doomed = fst_where tags s.search_count_tags in
    if is_empty tags then s else record s {
      search_count_cache = keep (λ c. not (mem c doomed)) s.search_count_cache;
      search_count_tags = keep (λ row. not (mem (fst row) doomed)) s.search_count_tags;
      purged = s.purged ++ (tags ++ 0 ∷ []);
    }

pub data Action : Type 0 where
  create modify delete : Action

pub record MultiLog : Type 0 where
  pub tag : ℕ
  pub action : Action
  pub pids : List ℕ

-- SELECT DISTINCT
unfoldable pub distinct : List ℕ → List ℕ
distinct [] = []
distinct (x ∷ xs) = let rest = distinct xs in if mem x rest then rest else x ∷ rest

-- `query` is the prepared statement: the posts that it selects for a tag
unfoldable pub multi_logs : (ℕ → List ℕ) → Action → List ℕ → List MultiLog
multi_logs query action [] = []
multi_logs query action (t ∷ tags) =
    let rest = multi_logs query action tags in
    if is_empty (query t) then rest else record { tag = t; action = action; pids = query t } ∷ rest
