-- ===== src/PostTags.antt =====
-- The statements of DataManager/post_tags.go that change the tags of one post, `updateCount` of
-- DataManager/tags.go with the loop of `addCount` (DataManager/tag_set_q.go), and
-- `clearEmptySearchCountCache` of DataManager/posts.go. The count column is a number of posts, from
-- which no more is taken than it holds where it is right.
pub mod Statements
pub mod Alter
pub mod Many
mod Examples
use pbooru.Prelude.{
  ℕ, ◌+◌, ◌-◌, Bool, not, List, [], ◌∷◌, keep, ◌==◌, if◌then◌else◌, ◌&&◌, Outcome, ok, err,
}
use pbooru.Database.{Table, fst, snd, has_row, has_key}
use pbooru.Tags.Store.{Store}

pub record PostTagsLog : Type 0 where
  pub post : ℕ
  pub added : List ℕ
  pub removed : List ℕ

-- UPDATE tags SET count = count - v WHERE id = k
unfoldable pub lower_count : ℕ → ℕ → Table → Table
lower_count k v [] = []
lower_count k v ((id, count) ∷ rows) =
    (id, (if id == k then count - v else count)) ∷ lower_count k v rows

-- UPDATE tags SET count = count + 1 WHERE id = k
unfoldable pub raise_count : ℕ → Table → Table
raise_count k [] = []
raise_count k ((id, count) ∷ rows) =
    (id, (if id == k then count + 1 else count)) ∷ raise_count k rows

-- addCount(tx, 1) and addCount(tx, -1)
unfoldable pub count_up : List ℕ → Table → Table
unfolding raise_count
count_up [] rows = rows
count_up (t ∷ tags) rows = count_up tags (raise_count t rows)

unfoldable pub count_down : List ℕ → Table → Table
unfolding lower_count
count_down [] rows = rows
count_down (t ∷ tags) rows = count_down tags (lower_count t 1 rows)

-- prepPTExec with queryDeletePTM
unfoldable pub delete_tags : ℕ → List ℕ → Table → Table
delete_tags p [] rows = rows
delete_tags p (t ∷ tags) rows =
    delete_tags p tags (keep (λ row. not (fst row == p && snd row == t)) rows)

-- prepPTExec with queryInsertPTM, which fails with `violation` where the unique key refuses a row
unfoldable pub insert_tags : {E : Type 0} → E → ℕ → List ℕ → Table → Outcome E Table
insert_tags violation p [] rows = ok rows
insert_tags violation p (t ∷ tags) rows =
    let rest = insert_tags violation p tags ((p, t) ∷ rows) in
    if has_row p t rows then err violation else rest

-- a cache with no tags is deleted
unfoldable pub clear_empty_search_count_cache : Store → Store
clear_empty_search_count_cache s = record s {
  search_count_cache = keep (λ c. has_key c s.search_count_tags) s.search_count_cache;
}
