-- ===== src/Duplicates/TagMove.antt =====
-- `commonTags` and `moveTags` of DataManager/duplicates.go. The map of common tags is a list with each tag once; its order is free, as
-- the counts of different tags are changed apart.
pub mod Posts
pub mod Lowered
pub mod Counts
use pbooru.Prelude.{
  ℕ, ◌+◌, ◌-◌, Bool, not, List, [], ◌∷◌, ◌++◌, map, mem, keep, ltb, ◌==◌, if◌then◌else◌, ◌&&◌,
  Outcome, ok, err, ◌>>=◌,
}
use pbooru.Sets.{SetLib, from_list}
use pbooru.Database.{Table, fst, has_row, snd_where, has_key}
use pbooru.Duplicates.{Error, unique_violation}
use pbooru.PostTags.{PostTagsLog, lower_count, insert_tags, clear_empty_search_count_cache}
use pbooru.Tags.Store.{Store, distinct, purge_count_cache}

-- SELECT count(*) … WHERE post_id IN(pids) GROUP BY tag_id
unfoldable pub common_count : List ℕ → ℕ → Table → ℕ
common_count pids tag [] = 0
common_count pids tag ((p, t) ∷ ptm) =
    common_count pids tag ptm + (if tag == t && mem p pids then 1 else 0)

-- the groups HAVING count(*) > 1, each with count(*) - 1
unfoldable pub common_pairs : List ℕ → Table → List ℕ → Table
unfolding common_count
common_pairs pids ptm [] = []
common_pairs pids ptm (t ∷ tags) =
    let rest = common_pairs pids ptm tags in
    if ltb 1 (common_count pids t ptm) then (t, common_count pids t ptm - 1) ∷ rest else rest

unfoldable pub common_tags : List ℕ → Table → Table
unfolding common_pairs snd_where
common_tags pids ptm = common_pairs pids ptm (distinct (snd_where pids ptm))

unfoldable pub lower_counts : Table → Table → Table
unfolding lower_count
lower_counts [] rows = rows
lower_counts ((k, v) ∷ common) rows = lower_counts common (lower_count k v rows)

module _ (S : SetLib) where
  open S use {Set, elems, new, union, diff}

  -- the loop over the inferiors: their tags, the rows that are left, and the logs
  unfoldable pub strip : Set → List ℕ → Table → Set × Table × List PostTagsLog
  strip new_set [] ptm = (new_set, ptm, [])
  strip new_set (q ∷ inferior) ptm =
      let infset = from_list S (snd_where (q ∷ []) ptm) in
      let (new_set', ptm', logs) =
        strip (union new_set infset) inferior (keep (λ row. not (fst row == q)) ptm) in
      (new_set', ptm', record { post = q; added = []; removed = elems infset } ∷ logs)

  unfoldable pub move_tags : ℕ → List ℕ → Store → Outcome Error (Store × List PostTagsLog)
  unfolding strip insert_tags
  move_tags p inferior s = do
    let common = common_tags (inferior ++ p ∷ []) s.post_tag_mappings
    let post_set = from_list S (snd_where (p ∷ []) s.post_tag_mappings)
    let (collected, stripped, logs) = strip new inferior s.post_tag_mappings
    let new_set = diff collected post_set
    rows ← insert_tags unique_violation p (elems new_set) stripped
    let moved = record s { post_tag_mappings = rows; tags = lower_counts common s.tags }
    let changed = elems (from_list S (map fst common))
    ok (
      clear_empty_search_count_cache (purge_count_cache changed moved),
      logs ++ record { post = p; added = elems new_set; removed = [] } ∷ [],
    )
