-- ===== src/Alts.antt =====
-- `SetAlts` and `SplitAlts` of DataManager/alts.go, with `postsTags` of DataManager/post_tags.go. The
-- rows of `posts` are (id, alt_group). A statement with an empty `IN ()` is a syntax error. An error
-- carries no tables (rollback).
pub mod Groups
pub mod Merged
pub mod Split
mod Examples
use pbooru.Prelude.{
  ℕ, List, Option, Outcome, [], err, if◌then◌else◌, keep, mem, none, not, ok, some, ◌>>=◌, ◌∷◌,
}
use pbooru.Sets.{SetLib, from_list}
use pbooru.Database.{Table, fst_where, snd_where}
use pbooru.Duplicates.{superior_of}
use pbooru.Duplicates.Moves.{max_of, set_group}
use pbooru.PostTags.{clear_empty_search_count_cache}
use pbooru.Tags.Store.{Store, purge_count_cache}

pub data AltError : Type 0 where
  syntax_error : AltError
  -- posts[0] of an empty slice
  panic : AltError

pub record AltStore : Type 0 where
  pub posts : Table
  pub duplicates : Table
  pub tables : Store

-- COALESCE(post_id, id)
unfoldable pub coalesced : ℕ → Option ℕ → ℕ
coalesced id none = id
coalesced id (some superior) = superior

-- SELECT DISTINCT COALESCE(post_id, id) FROM posts LEFT JOIN duplicates ON id = dup_id
unfoldable pub leaders : List ℕ → Table → Table → List ℕ
unfolding coalesced superior_of
leaders pids duplicates [] = []
leaders pids duplicates ((id, g) ∷ posts) =
    let rest = leaders pids duplicates posts in
    if mem id pids then coalesced id (superior_of id duplicates) ∷ rest else rest

-- SELECT id FROM posts WHERE alt_group IN(SELECT alt_group … WHERE id IN(ids))
unfoldable pub members_with : List ℕ → Table → List ℕ
members_with ids posts = fst_where (snd_where ids posts) posts

-- UPDATE posts SET alt_group = group WHERE id IN(ids)
unfoldable pub update_group : ℕ → List ℕ → Table → Outcome AltError Table
unfolding set_group
update_group group [] posts = err syntax_error
update_group group (id ∷ ids) posts = ok (set_group (id ∷ ids) group posts)

module _ (S : SetLib) where
  open S use {Set, elems}

  -- postsTags(tx, ids).purgeCountCache(tx)
  unfoldable pub purge_tags_of : List ℕ → Store → Store
  purge_tags_of ids s =
      purge_count_cache (elems (from_list S (snd_where ids s.post_tag_mappings))) s

  -- the tables, and the ids that are logged
  unfoldable pub set_alts : List ℕ → AltStore → Outcome AltError (AltStore × List ℕ)
  unfolding leaders members_with max_of update_group purge_tags_of
  set_alts pids st = do
    let members = members_with (leaders pids st.duplicates st.posts) st.posts
    let ids = elems (from_list S members)
    posts ← update_group (max_of 0 members) ids st.posts
    ok (
      record st {
        posts = posts;
        tables = clear_empty_search_count_cache (purge_tags_of ids st.tables);
      },
      ids,
    )

  -- the group of the first post, less the listed posts, and the listed posts
  unfoldable pub split_groups :
      ℕ → List ℕ → AltStore → Outcome AltError (AltStore × List ℕ × List ℕ)
  unfolding members_with max_of update_group purge_tags_of
  split_groups first pids st = do
    let b = elems (from_list S pids)
    let others = keep (λ id. not (mem id b)) (members_with (first ∷ []) st.posts)
    let a = elems (from_list S others)
    posts1 ← update_group (max_of 0 others) a st.posts
    posts2 ← update_group (max_of 0 b) b posts1
    ok (
      record st {
        posts = posts2;
        tables = clear_empty_search_count_cache (purge_tags_of b (purge_tags_of a st.tables));
      },
      a,
      b,
    )

  unfoldable pub split_alts : List ℕ → AltStore → Outcome AltError (AltStore × List ℕ × List ℕ)
  unfolding split_groups
  split_alts [] st = err panic
  split_alts (first ∷ rest) st = split_groups first (first ∷ rest) st
