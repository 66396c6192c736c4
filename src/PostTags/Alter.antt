-- ===== src/PostTags/Alter.antt =====
-- `AlterPostTags` of DataManager/post_tags.go. The tag texts were parsed, and those of `tagstr` saved,
-- before: a call takes the set of ids of the first, and the set of tags, without ids, of the second.
-- `names` has the tag and the namespace of each id, as the view `tag` does. An error carries no tables
-- (rollback).
pub mod Texts
pub mod Run
pub mod Counts
use pbooru.Prelude.{List, Option, [], if◌then◌else◌, is_empty, map, none, some, ℕ, ◌&&◌, ◌∷◌}
use pbooru.Text.{Text}
use pbooru.Sets.{SetLib, from_list}
use pbooru.Database.{Table, snd_where}
use pbooru.Tags.Error.{Result, ok, or_fail, out_of_fuel, unique_violation, ◌>>=◌}
use pbooru.Tags.Family.{upgrade}
use pbooru.Tags.Store.{Store, purge_count_cache}
use pbooru.Tags.Syntax.{Tag}
use pbooru.Tags.TextSets.{TextSets, collect}
use pbooru.PostTags.{
  PostTagsLog, clear_empty_search_count_cache, count_down, count_up, delete_tags, insert_tags,
}

-- the row of a tag
abbrev pub tag_of : (ℕ → Text × Text) → ℕ → Tag
tag_of names t = record { id = t; tag = (names t).0; namespace = (names t).1; count = 0 }

abbrev pub ids_of : List Tag → List ℕ
ids_of ts = map (λ (t : Tag). t.id) ts

-- what follows the statements on the rows
unfoldable pub finish : ℕ → List ℕ → List ℕ → Store → Table → Store × Option PostTagsLog
finish p add remove s rows =
    let added =
      purge_count_cache add (record s { post_tag_mappings = rows; tags = count_up add s.tags }) in
    let removed = purge_count_cache remove (record added { tags = count_down remove added.tags }) in
    (
      clear_empty_search_count_cache removed,
      some (record { post = p; added = add; removed = remove }),
    )

-- from the first statement on
unfoldable pub write_tags : ℕ → List ℕ → List ℕ → Store → Result (Store × Option PostTagsLog)
unfolding finish
write_tags p add remove s = do
  rows ← insert_tags unique_violation p add (delete_tags p remove s.post_tag_mappings)
  ok (finish p add remove s rows)

module _ (T : TextSets) where
  -- add and remove, by text
  abbrev pub to_add : T.Set → T.Set → T.Set → List ℕ
  to_add tags base post_tags = ids_of (T.elems (T.diff (T.diff tags base) post_tags))

  abbrev pub to_remove : T.Set → T.Set → T.Set → List ℕ
  to_remove tags base post_tags = ids_of (T.elems (T.intersection post_tags (T.diff base tags)))

  -- tagSetChain.ts
  unfoldable pub ts : (ℕ → Text × Text) → List ℕ → T.Set
  unfolding collect
  ts names tags = collect T (map (tag_of names) tags) T.new

module _ (S : SetLib) (T : TextSets) (names : ℕ → Text × Text) where
  open S use {Set, elems}

  -- `base` is tagdiff; with nothing to do there is no log
  unfoldable pub alter_post_tags : ℕ → Set → T.Set → Store → Result (Store × Option PostTagsLog)
  unfolding write_tags ts
  alter_post_tags p named base s = do
    set ← or_fail (upgrade S s.alias s.parent_tags named) out_of_fuel
    let tags = ts T names (elems set)
    let post_tags = ts T names (elems (from_list S (snd_where (p ∷ []) s.post_tag_mappings)))
    let add = to_add T tags base post_tags
    let remove = to_remove T tags base post_tags
    let written = write_tags p add remove s
    if is_empty add && is_empty remove then ok (s, none) else written
