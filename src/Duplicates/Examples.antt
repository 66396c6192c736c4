-- ===== src/Duplicates/Examples.antt =====
-- Runs of the theorems on duplicates: post 2 has the duplicate 3, and post 1 is to have 2.
use pbooru.Prelude.{
  ◌≡◌, refl, false, not, ◌&&◌, ◌||◌, List, [], ◌∷◌, arith, mem, ◌==◌, ==_iff, if◌then◌else◌, ok,
}
use pbooru.Sets.{list_sets, from_list, add_all}
use pbooru.Database.{Table, has_row, snd_where, fst_where, has_key}
use pbooru.Duplicates.{
  Dupe, DuplicatesLog, superior_of, is_of, scan, get_dupe_from_post, upgrade_dupe, remove_inferior,
  check_rows, conflicts, repoint, has_dup, insert_dupes, update_and_insert, assign,
}
use pbooru.Duplicates.Conflicts.{IsLevel}
use pbooru.Duplicates.Flat.{assign-IsLevel}
use pbooru.Duplicates.Moves.Votes.{any_row}
use pbooru.PostTags.{PostTagsLog, lower_count, insert_tags, clear_empty_search_count_cache}
use pbooru.Duplicates.TagMove.{
  common_count, common_pairs, common_tags, lower_counts, strip, move_tags,
}
use pbooru.Duplicates.TagMove.Posts.{has_row-move_tags}
use pbooru.Duplicates.TagMove.Counts.{move_tags-IsCounted}
use pbooru.PostTags.Statements.{IsUnique}
use pbooru.Duplicates.Reports.{Report, Fruit, update_dupe_reports}
use pbooru.Duplicates.Reports.Tidy.{IsTidy, update_dupe_reports-IsTidy}
use pbooru.Tags.Store.{Store, count_posts, distinct, purge_count_cache}
use pbooru.Tags.Store.Counts.{IsCounted}
use pbooru.Tags.Parent.Closure.{IsUpgraded}

abbrev asked : Dupe
asked = record { post = 1; inferior = 2 ∷ 1 ∷ [] }

abbrev checked_dupe : Dupe
checked_dupe = record { post = 1; inferior = 2 ∷ [] }

abbrev duplicates : Table
duplicates = (2, 3) ∷ []

abbrev duplicates_log : DuplicatesLog
duplicates_log = record { superior = 1; inferior = 3 ∷ 2 ∷ [] }

assign_run : assign duplicates asked ≡ ok (checked_dupe, (1, 2) ∷ (1, 3) ∷ [], duplicates_log)
unfolding assign upgrade_dupe get_dupe_from_post scan is_of superior_of conflicts check_rows
    remove_inferior update_and_insert repoint insert_dupes has_dup snd_where
assign_run = refl

duplicates-IsLevel : IsLevel duplicates
duplicates-IsLevel s x y h = ground (arith, ==_iff s 2, ==_iff s 3)

assign-IsLevel_example : IsLevel ((1, 2) ∷ (1, 3) ∷ [])
assign-IsLevel_example =
    assign-IsLevel duplicates ((1, 2) ∷ (1, 3) ∷ []) asked checked_dupe duplicates_log assign_run
      duplicates-IsLevel

conflicts_run : conflicts duplicates asked ≡ ok checked_dupe
unfolding conflicts check_rows remove_inferior
conflicts_run = refl

-- posts 1 and 2 have the tag 21, 2 has 22, and 21 is a parent of 22
abbrev tagged : Store
tagged = record {
  post_tag_mappings = (1, 21) ∷ (2, 21) ∷ (2, 22) ∷ [];
  alias = [];
  parent_tags = (21, 22) ∷ [];
  dns_tag_mapping = [];
  tags = (21, 2) ∷ (22, 1) ∷ [];
  search_count_cache = 6 ∷ 7 ∷ [];
  search_count_tags = (7, 22) ∷ [];
  purged = [];
}

abbrev retagged : Store
retagged = record {
  post_tag_mappings = (1, 22) ∷ (1, 21) ∷ [];
  alias = [];
  parent_tags = (21, 22) ∷ [];
  dns_tag_mapping = [];
  tags = (21, 1) ∷ (22, 1) ∷ [];
  search_count_cache = 7 ∷ [];
  search_count_tags = (7, 22) ∷ [];
  purged = 21 ∷ 0 ∷ [];
}

abbrev tag_logs : List PostTagsLog
tag_logs =
    record { post = 2; added = []; removed = 22 ∷ 21 ∷ [] }
    ∷ record { post = 1; added = 22 ∷ []; removed = [] }
    ∷ []

move_tags_run : move_tags list_sets 1 (2 ∷ []) tagged ≡ ok (retagged, tag_logs)
unfolding move_tags common_count common_pairs common_tags lower_count lower_counts insert_tags
    clear_empty_search_count_cache strip distinct purge_count_cache snd_where fst_where has_key
    from_list add_all
move_tags_run = refl

tagged-IsUnique : IsUnique tagged.post_tag_mappings
tagged-IsUnique = (refl, (refl, (refl, tt)))

tagged-IsCounted : IsCounted tagged.post_tag_mappings tagged.tags
unfolding count_posts
tagged-IsCounted id n r = ground (arith, ==_iff id 21, ==_iff id 22, ==_iff n 2, ==_iff n 1)

tagged-IsUpgraded : IsUpgraded tagged.parent_tags tagged.post_tag_mappings
tagged-IsUpgraded post p c edge has =
    ground (arith, ==_iff p 21, ==_iff c 21, ==_iff c 22, ==_iff post 1, ==_iff post 2)

has_row-move_tags_example : has_row 1 22 retagged.post_tag_mappings ≡ (
    if 1 == 1
    then has_row 1 22 tagged.post_tag_mappings || any_row (2 ∷ []) 22 tagged.post_tag_mappings
    else not (mem 1 (2 ∷ [])) && has_row 1 22 tagged.post_tag_mappings)
has_row-move_tags_example =
    has_row-move_tags list_sets 1 (2 ∷ []) tagged retagged tag_logs refl move_tags_run 1 22

move_tags-IsCounted_example : IsCounted retagged.post_tag_mappings retagged.tags
move_tags-IsCounted_example =
    move_tags-IsCounted list_sets 1 (2 ∷ []) tagged retagged tag_logs refl tagged-IsUnique
      move_tags_run tagged-IsCounted

abbrev reports : List Report
reports = record { id = 30; post = 2; approved = false; report_type = 1 } ∷ []

abbrev fruits : List Fruit
fruits = record { id = 40; report = 30; post = 2 } ∷ record { id = 41; report = 30; post = 8 } ∷ []

update_dupe_reports-IsTidy_example :
    IsTidy
      (2 ∷ [])
      (update_dupe_reports 1 (2 ∷ []) reports fruits).0
      (update_dupe_reports 1 (2 ∷ []) reports fruits).1
update_dupe_reports-IsTidy_example = update_dupe_reports-IsTidy 1 (2 ∷ []) reports fruits refl
