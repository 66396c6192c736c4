-- ===== src/PostTags/Examples.antt =====
-- Runs of the theorems on the tags of posts: tag 4 is an alias of 1, tag 3 a parent of 1.
use pbooru.Prelude.{
  ==_iff, List, Option, [], arith, if◌then◌else◌, mem, not, ok, refl, some, ℕ, ◌&&◌, ◌==◌, ◌||◌,
  ◌∷◌, ◌≡◌, none,
}
use pbooru.Sets.{from_list, add_all, list_sets}
use pbooru.Database.{
  has_row, has_key, fst_where, snd_where, insert_rows, insert_row, cross, pair_with,
}
use pbooru.Tags.Family.{aliased_to, aliases, add_aliased, fresh, parents_loop, parents, upgrade}
use pbooru.Tags.Store.{
  Store, MultiLog, create, delete, multi_logs, distinct, purge_count_cache, count_posts,
}
use pbooru.Tags.Store.Counts.{IsCounted}
use pbooru.PostTags.{
  PostTagsLog, lower_count, raise_count, count_up, count_down, insert_tags, delete_tags,
  clear_empty_search_count_cache,
}
use pbooru.PostTags.Statements.{IsUnique}
use pbooru.PostTags.Alter.{finish, write_tags, alter_post_tags, ts}
use pbooru.PostTags.Alter.Texts.{AreReadable, text}
use pbooru.Tags.TextSets.{DistinctTags, collect, has_text, list_text_sets}
use pbooru.Tags.Syntax.{to_string}
use pbooru.Text.{Text, codes, text_eq}
use pbooru.PostTags.Alter.Run.{alter_post_tags_exact}
use pbooru.PostTags.Alter.Counts.{alter_post_tags-IsCounted}
use pbooru.PostTags.Many.{posts_in, add_to_posts, remove_from_posts, alter_many_post_tags}
use pbooru.PostTags.Many.Rows.{alter_many_post_tags-rows}

-- the tag of an id is a text of one character
abbrev names : ℕ → Text × Text
names t = (t ∷ [], codes "none")

names-AreReadable : AreReadable names
unfolding to_string text_eq
names-AreReadable t u e = ground arith

-- the base: tag 2, without its id
abbrev base : DistinctTags
base = (record { id = 0; tag = 2 ∷ []; namespace = codes "none"; count = 0 } ∷ [], (refl, tt))

-- post 10 has tag 2, post 11 has 2 and 5, post 12 has none
abbrev before : Store
before = record {
  post_tag_mappings = (10, 2) ∷ (11, 2) ∷ (11, 5) ∷ [];
  alias = (4, 1) ∷ [];
  parent_tags = (3, 1) ∷ [];
  dns_tag_mapping = [];
  tags = (1, 0) ∷ (2, 2) ∷ (3, 0) ∷ (5, 1) ∷ [];
  search_count_cache = 7 ∷ 8 ∷ [];
  search_count_tags = (7, 2) ∷ (8, 9) ∷ [];
  purged = [];
}

-- AlterPostTags of 10 to 4, with the base 2
abbrev altered : Store
altered = record before {
  post_tag_mappings = (10, 3) ∷ (10, 1) ∷ (11, 2) ∷ (11, 5) ∷ [];
  tags = (1, 1) ∷ (2, 1) ∷ (3, 1) ∷ (5, 1) ∷ [];
  search_count_cache = 8 ∷ [];
  search_count_tags = (8, 9) ∷ [];
  purged = 1 ∷ 3 ∷ 0 ∷ 2 ∷ 0 ∷ [];
}

alter_run :
    alter_post_tags list_sets list_text_sets names 10 (4 ∷ []) base before
    ≡ ok (altered, some (record { post = 10; added = 1 ∷ 3 ∷ []; removed = 2 ∷ [] }))
unfolding alter_post_tags write_tags ts collect to_string text_eq finish insert_tags delete_tags
    count_up count_down raise_count lower_count purge_count_cache clear_empty_search_count_cache
    upgrade parents parents_loop fresh aliases add_aliased aliased_to from_list add_all snd_where
    fst_where has_key
alter_run = refl

-- tag 2 is `a:b` with no namespace, every other tag `b` of the namespace `a`
abbrev alike : ℕ → Text × Text
alike t = if t == 2 then (codes "a:b", codes "none") else (codes "b", codes "a")

-- a post that has tag 2 is not given tag 5, which prints alike
alike_run :
    alter_post_tags list_sets list_text_sets alike 10 (5 ∷ []) ([], tt) before ≡ ok (before, none)
unfolding alter_post_tags write_tags ts collect to_string text_eq finish insert_tags delete_tags
    count_up count_down raise_count lower_count purge_count_cache clear_empty_search_count_cache
    upgrade parents parents_loop fresh aliases add_aliased aliased_to from_list add_all snd_where
    fst_where has_key
alike_run = refl

before-IsUnique : IsUnique before.post_tag_mappings
before-IsUnique = (refl, (refl, (refl, tt)))

before-IsCounted : IsCounted before.post_tag_mappings before.tags
unfolding count_posts
before-IsCounted id n r =
    ground (
      arith,
      ==_iff id 1,
      ==_iff id 2,
      ==_iff id 3,
      ==_iff id 5,
      ==_iff n 0,
      ==_iff n 1,
      ==_iff n 2,
    )

alter_post_tags_exact_example :
    (s' : Store) × (log : Option PostTagsLog) × (tags : List ℕ) × (alter_post_tags list_sets
        list_text_sets names 10
        (4 ∷ [])
        base
        before
      ≡ ok (s', log))
    × (upgrade list_sets before.alias before.parent_tags (4 ∷ []) ≡ some tags)
    × ((post t : ℕ)
        → has_row post t s'.post_tag_mappings ≡ (
            if post == 10
            then mem t tags && not (has_text (text names t) base.0)
              || has_row 10 t before.post_tag_mappings
                && (mem t tags || not (has_text (text names t) base.0))
            else has_row post t before.post_tag_mappings))
alter_post_tags_exact_example =
    alter_post_tags_exact list_sets list_text_sets names 10 (4 ∷ []) base before names-AreReadable

alter_post_tags-IsCounted_example :
    IsCounted altered.post_tag_mappings altered.tags × IsUnique altered.post_tag_mappings
alter_post_tags-IsCounted_example =
    alter_post_tags-IsCounted list_sets list_text_sets names 10 (4 ∷ []) base before altered
      (some (record { post = 10; added = 1 ∷ 3 ∷ []; removed = 2 ∷ [] })) alter_run before-IsUnique
      before-IsCounted

-- AlterManyPostTags of 10 and 12: 5 is added and 2 removed
abbrev many : Store
many = record before { post_tag_mappings = (10, 5) ∷ (11, 2) ∷ (11, 5) ∷ [] }

abbrev many_logs : List MultiLog
many_logs =
    record { tag = 5; action = create; pids = 10 ∷ [] }
    ∷ record { tag = 2; action = delete; pids = 10 ∷ [] }
    ∷ []

alter_many_run :
    alter_many_post_tags list_sets (10 ∷ 12 ∷ []) (5 ∷ []) (2 ∷ []) before ≡ ok (many, many_logs)
unfolding alter_many_post_tags add_to_posts remove_from_posts posts_in multi_logs distinct upgrade
    parents parents_loop fresh aliases add_aliased aliased_to add_all fst_where insert_rows
    insert_row cross pair_with
alter_many_run = refl

alter_many_post_tags-rows_example :
    (add : List ℕ) × (upgrade list_sets before.alias before.parent_tags (5 ∷ []) ≡ some add)
    × ((post t : ℕ)
        → has_row post t many.post_tag_mappings ≡ (
            if mem post (10 ∷ 12 ∷ [])
            then mem t add && has_key post before.post_tag_mappings
              || has_row post t before.post_tag_mappings && (mem t add || not (mem t (2 ∷ [])))
            else has_row post t before.post_tag_mappings))
alter_many_post_tags-rows_example =
    alter_many_post_tags-rows list_sets (10 ∷ 12 ∷ []) (5 ∷ []) (2 ∷ []) before many many_logs
      alter_many_run
