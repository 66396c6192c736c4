-- ===== src/Tags/Examples.antt =====
-- Runs of the tag domain's theorems at small tables: tag 4 is an alias of 1, tag 3 a parent of 1.
use pbooru.Prelude.{◌↔◌, ℕ, ◌≡◌, refl, true, List, [], ◌∷◌, arith, mem, ==_iff, some}
use pbooru.Sets.{list_sets, from_list, add_all}
use pbooru.Database.{fst_where, has_key, insert_rows, insert_row, cross, pair_with}
use pbooru.Tags.Error.{ok}
use pbooru.Tags.Family.{aliased_to, aliases, add_aliased, fresh, parents_loop, parents, upgrade}
use pbooru.Tags.Family.Ancestors.{Ancestry}
use pbooru.Tags.Family.Closure.{parents_exact}
use pbooru.Tags.Store.{
  Store, create, delete, count_posts, recount_rows, recount, purge_count_cache, distinct,
  multi_logs,
}
use pbooru.Tags.Store.Counts.{IsCounted}
use pbooru.Tags.Alias.{
  AliasLog, set_fst, update_fst, set_snd, update_snd, update_dns, update_aliases, inherited,
  update_parents, insert_aliases, ptm_targets, move_posts, update_ptm, write_alias, alias_to,
  alias_tags, alias_of, log_under, unalias_tags,
}
use pbooru.Tags.Alias.Resolution.{IsFlat, alias_tags-IsFlat}
use pbooru.Tags.Alias.Removal.{IsKeyed}
use pbooru.Tags.Parent.{
  ParentLog, insert_parents_of, insert_family, insert_ancestors, write_family, parent_tags,
  unparent_tags,
}
use pbooru.Tags.Parent.Closure.{IsUpgraded, parent_tags-IsUpgraded}

abbrev before : Store
before = record {
  post_tag_mappings = (10, 1) ∷ (11, 2) ∷ [];
  alias = (4, 1) ∷ [];
  parent_tags = (3, 1) ∷ [];
  dns_tag_mapping = (1, 7) ∷ [];
  tags = (1, 1) ∷ (2, 1) ∷ (3, 0) ∷ [];
  search_count_cache = 5 ∷ 6 ∷ [];
  search_count_tags = (5, 1) ∷ [];
  purged = [];
}

-- AliasTags of 1 to 2
abbrev aliased : Store
aliased = record {
  post_tag_mappings = (10, 2) ∷ (10, 3) ∷ (11, 2) ∷ [];
  alias = (1, 2) ∷ (4, 2) ∷ [];
  parent_tags = (3, 2) ∷ [];
  dns_tag_mapping = (2, 7) ∷ [];
  tags = (1, 0) ∷ (2, 2) ∷ (3, 1) ∷ [];
  search_count_cache = 6 ∷ [];
  search_count_tags = [];
  purged = 3 ∷ 2 ∷ 1 ∷ 0 ∷ [];
}

abbrev alias_log : AliasLog
alias_log = record {
  from = 1 ∷ [];
  to = 2;
  multi_logs =
      record { tag = 1; action = delete; pids = 10 ∷ [] }
      ∷ record { tag = 3; action = create; pids = 10 ∷ [] }
      ∷ record { tag = 2; action = create; pids = 10 ∷ [] }
      ∷ [];
}

alias_tags_run : alias_tags list_sets (1 ∷ []) (2 ∷ []) before ≡ ok (aliased, alias_log)
unfolding set_fst update_fst set_snd update_snd update_dns update_aliases inherited update_parents
    insert_aliases ptm_targets move_posts update_ptm write_alias alias_to alias_tags insert_rows
    insert_row cross pair_with fst_where has_key aliased_to aliases add_aliased fresh parents_loop
    parents upgrade count_posts recount_rows recount purge_count_cache distinct multi_logs from_list
    add_all
alias_tags_run = refl

before-IsFlat : IsFlat before.alias
unfolding aliased_to
before-IsFlat x = ground arith

alias_tags-IsFlat_example : IsFlat aliased.alias
alias_tags-IsFlat_example =
    alias_tags-IsFlat list_sets (1 ∷ []) (2 ∷ []) before aliased alias_log alias_tags_run
      before-IsFlat

before-IsKeyed : IsKeyed aliased.alias
unfolding has_key
before-IsKeyed = (refl, (refl, tt))

unalias_tags_run : unalias_tags (4 ∷ []) aliased.alias [] ≡ ok ((1, 2) ∷ [], (2, 4 ∷ []) ∷ [])
unfolding unalias_tags alias_of log_under
unalias_tags_run = refl

-- the parents of 1 in a cycle of 1, 2 and 3
parents_exact_example :
    (r : List ℕ) × (parents list_sets ((3, 1) ∷ (2, 3) ∷ (1, 2) ∷ []) (1 ∷ []) ≡ some r)
    × ((x : ℕ) → (mem x r ≡ true) ↔ Ancestry ((3, 1) ∷ (2, 3) ∷ (1, 2) ∷ []) (1 ∷ []) x)
parents_exact_example = parents_exact list_sets ((3, 1) ∷ (2, 3) ∷ (1, 2) ∷ []) (1 ∷ [])

-- ParentTags of 2 under 1
abbrev upgraded : Store
upgraded = record before {
  post_tag_mappings = (10, 1) ∷ (10, 3) ∷ (11, 2) ∷ [];
  tags = (1, 1) ∷ (2, 1) ∷ (3, 1) ∷ [];
}

abbrev adopted : Store
adopted = record {
  post_tag_mappings = (11, 1) ∷ (11, 3) ∷ (10, 1) ∷ (10, 3) ∷ (11, 2) ∷ [];
  alias = (4, 1) ∷ [];
  parent_tags = (1, 2) ∷ (3, 1) ∷ [];
  dns_tag_mapping = (1, 7) ∷ [];
  tags = (1, 2) ∷ (2, 1) ∷ (3, 2) ∷ [];
  search_count_cache = 6 ∷ [];
  search_count_tags = [];
  purged = 3 ∷ 1 ∷ 0 ∷ [];
}

abbrev parent_log : ParentLog
parent_log = record {
  children = 2 ∷ [];
  parents = 1 ∷ [];
  action = create;
  multi_logs =
      record { tag = 3; action = create; pids = 11 ∷ [] }
      ∷ record { tag = 1; action = create; pids = 11 ∷ [] }
      ∷ [];
}

parent_tags_run : parent_tags list_sets (2 ∷ []) (1 ∷ []) upgraded ≡ ok (adopted, parent_log)
unfolding insert_parents_of insert_family insert_ancestors write_family parent_tags insert_rows
    insert_row cross pair_with fst_where aliased_to aliases add_aliased fresh parents_loop parents
    upgrade count_posts recount_rows recount purge_count_cache distinct multi_logs add_all
parent_tags_run = refl

start-IsUpgraded : IsUpgraded upgraded.parent_tags upgraded.post_tag_mappings
start-IsUpgraded post p c edge has =
    ground (arith, ==_iff p 3, ==_iff c 1, ==_iff c 2, ==_iff c 3, ==_iff post 10, ==_iff post 11)

start-IsCounted : IsCounted upgraded.post_tag_mappings upgraded.tags
unfolding count_posts
start-IsCounted id n r =
    ground (arith, ==_iff id 1, ==_iff id 2, ==_iff id 3, ==_iff n 0, ==_iff n 1)

parent_tags-IsUpgraded_example : IsUpgraded adopted.parent_tags adopted.post_tag_mappings
parent_tags-IsUpgraded_example =
    parent_tags-IsUpgraded list_sets (2 ∷ []) (1 ∷ []) upgraded adopted parent_log parent_tags_run
      before-IsFlat start-IsUpgraded

-- UnparentTags of 1 under 3 and 2: only 3 is a parent
abbrev orphaned : Store
orphaned = record before { parent_tags = [] }

abbrev unparent_log : ParentLog
unparent_log = record { children = 1 ∷ []; parents = 3 ∷ []; action = delete; multi_logs = [] }

unparent_tags_run :
    unparent_tags list_sets (1 ∷ []) (3 ∷ 2 ∷ []) before ≡ ok (orphaned, unparent_log)
unfolding unparent_tags add_all fst_where fresh parents_loop parents
unparent_tags_run = refl
