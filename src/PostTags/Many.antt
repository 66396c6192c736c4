-- ===== src/PostTags/Many.antt =====
-- `AlterManyPostTags` of DataManager/post_tags.go. The tag texts were parsed and saved before: a call
-- takes the sets of ids. An error carries no tables (rollback).
pub mod Rows
use pbooru.Prelude.{ℕ, List, keep, if◌then◌else◌, not, mem, is_empty, [], ◌∷◌, ◌||◌, ◌&&◌, ◌++◌}
use pbooru.Sets.{SetLib}
use pbooru.Database.{Table, fst, snd, has_row, fst_where, insert_rows, cross}
use pbooru.Tags.Error.{Result, ok, err, nothing_to_do, out_of_fuel, ◌>>=◌, or_fail}
use pbooru.Tags.Family.{upgrade}
use pbooru.Tags.Store.{Store, MultiLog, create, delete, multi_logs, distinct}

-- SELECT post_id FROM post_tag_mappings WHERE post_id IN(pids)
unfoldable pub posts_in : List ℕ → Table → List ℕ
posts_in pids [] = []
posts_in pids ((p, t) ∷ ptm) = let rest = posts_in pids ptm in if mem p pids then p ∷ rest else rest

unfoldable pub add_to_posts : List ℕ → List ℕ → Table → Table × List MultiLog
unfolding posts_in
add_to_posts pids add ptm =
    let lacking = λ (t : ℕ). distinct (keep (λ p. not (has_row p t ptm)) (posts_in pids ptm)) in
    if is_empty add
    then (ptm, [])
    else (insert_rows (cross (posts_in pids ptm) add) ptm, multi_logs lacking create add)

-- DELETE … USING (SELECT post_id, UNNEST(…))
unfoldable pub remove_from_posts : List ℕ → List ℕ → Table → Table × List MultiLog
unfolding posts_in
remove_from_posts pids remove ptm =
    let del = cross (posts_in pids ptm) remove in
    let having = λ (t : ℕ). keep (λ p. mem p pids) (fst_where (t ∷ []) ptm) in
    if is_empty remove
    then (ptm, [])
    else (keep (λ row. not (has_row (fst row) (snd row) del)) ptm, multi_logs having delete remove)

module _ (S : SetLib) where
  open S use {Set, elems, diff}

  unfoldable pub alter_many_post_tags : List ℕ → Set → Set → Store → Result (Store × List MultiLog)
  unfolding add_to_posts remove_from_posts
  alter_many_post_tags pids named unwanted s = do
    add ← or_fail (upgrade S s.alias s.parent_tags named) out_of_fuel
    let remove = diff unwanted add
    let (grown, added) = add_to_posts pids (elems add) s.post_tag_mappings
    let (rows, removed) = remove_from_posts pids (elems remove) grown
    if is_empty pids || is_empty (elems add) && is_empty (elems remove)
        then err nothing_to_do
        else ok (record s { post_tag_mappings = rows }, added ++ removed)
