-- ===== src/Alts/Examples.antt =====
-- Runs of the theorems on four posts: 1 and 2 are alternatives, 4 is a duplicate of 3.
use pbooru.Prelude.{==_iff, [], arith, mem, ok, refl, true, ℕ, ◌∷◌, ◌≡◌, if◌then◌else◌, false}
use pbooru.Sets.{list_sets, from_list, add_all}
use pbooru.Database.{has_row, fst_where, snd_where, has_key}
use pbooru.Duplicates.{superior_of}
use pbooru.Duplicates.Moves.{max_of, set_group}
use pbooru.PostTags.{clear_empty_search_count_cache}
use pbooru.Tags.Store.{Store, purge_count_cache}
use pbooru.Alts.{
  AltStore, coalesced, leaders, members_with, update_group, purge_tags_of, set_alts, split_alts,
  split_groups,
}
use pbooru.Alts.Groups.{IsKeyed, IsTopped}
use pbooru.Alts.Split.{IsGreatest, Shares, split_alts-has_row}
use pbooru.Alts.Merged.{set_alts-IsTopped}

abbrev tables : Store
tables = record {
  post_tag_mappings = (1, 5) ∷ (3, 6) ∷ [];
  alias = [];
  parent_tags = [];
  dns_tag_mapping = [];
  tags = (5, 1) ∷ (6, 1) ∷ [];
  search_count_cache = 7 ∷ [];
  search_count_tags = (7, 6) ∷ [];
  purged = [];
}

abbrev before : AltStore
before = record {
  posts = (1, 2) ∷ (2, 2) ∷ (3, 3) ∷ (4, 4) ∷ [];
  duplicates = (3, 4) ∷ [];
  tables = tables;
}

-- SetAlts of 1 and 4
abbrev merged : AltStore
merged = record {
  posts = (1, 3) ∷ (2, 3) ∷ (3, 3) ∷ (4, 4) ∷ [];
  duplicates = (3, 4) ∷ [];
  tables = record tables {
    search_count_cache = [];
    search_count_tags = [];
    purged = 6 ∷ 5 ∷ 0 ∷ [];
  };
}

merge_run : set_alts list_sets (1 ∷ 4 ∷ []) before ≡ ok (merged, 3 ∷ 2 ∷ 1 ∷ [])
unfolding set_alts leaders coalesced superior_of members_with update_group purge_tags_of
    purge_count_cache clear_empty_search_count_cache max_of set_group fst_where snd_where has_key
    from_list add_all
merge_run = refl

before-IsKeyed : IsKeyed before.posts
before-IsKeyed i g g' h h' = ground (
  arith,
  ==_iff i 1,
  ==_iff i 2,
  ==_iff i 3,
  ==_iff i 4,
  ==_iff g 2,
  ==_iff g 3,
  ==_iff g 4,
  ==_iff g' 2,
  ==_iff g' 3,
  ==_iff g' 4,
)

before-IsTopped : IsTopped before.posts
before-IsTopped i g h = (
  ground (
    arith,
    h,
    ==_iff i 1,
    ==_iff i 2,
    ==_iff i 3,
    ==_iff i 4,
    ==_iff g 2,
    ==_iff g 3,
    ==_iff g 4,
  ),
  ground (
    arith,
    h,
    ==_iff i 1,
    ==_iff i 2,
    ==_iff i 3,
    ==_iff i 4,
    ==_iff g 2,
    ==_iff g 3,
    ==_iff g 4,
  ),
)

set_alts-IsTopped_example : IsKeyed merged.posts × IsTopped merged.posts
set_alts-IsTopped_example =
    set_alts-IsTopped list_sets (1 ∷ 4 ∷ []) before merged (3 ∷ 2 ∷ 1 ∷ []) merge_run before-IsKeyed
      before-IsTopped

-- SplitAlts of 2 out of the group of 1, 2 and 3
abbrev split : AltStore
split = record {
  posts = (1, 3) ∷ (2, 2) ∷ (3, 3) ∷ (4, 4) ∷ [];
  duplicates = (3, 4) ∷ [];
  tables = record merged.tables { purged = 6 ∷ 5 ∷ 0 ∷ 6 ∷ 5 ∷ 0 ∷ [] };
}

split_run : split_alts list_sets (2 ∷ []) merged ≡ ok (split, 3 ∷ 1 ∷ [], 2 ∷ [])
unfolding split_alts split_groups leaders coalesced superior_of members_with update_group
    purge_tags_of purge_count_cache clear_empty_search_count_cache max_of set_group fst_where
    snd_where has_key from_list add_all
split_run = refl

split_alts-has_row_example :
    (top : ℕ) × (top_rest : ℕ) × IsGreatest top (2 ∷ [])
    × IsGreatest top_rest (3 ∷ 1 ∷ [])
    × ((i : ℕ) → mem i (2 ∷ []) ≡ mem i (2 ∷ []))
    × ((i : ℕ) → mem i (3 ∷ 1 ∷ []) ≡ true → Shares 2 i merged.posts × (mem i (2 ∷ []) ≡ false))
    × ((i : ℕ) → Shares 2 i merged.posts → mem i (2 ∷ []) ≡ false → mem i (3 ∷ 1 ∷ []) ≡ true)
    × ((i g : ℕ)
        → has_row i g merged.posts ≡ true
        → has_row i
            (if mem i (2 ∷ []) then top else if mem i (3 ∷ 1 ∷ []) then top_rest else g)
            split.posts
          ≡ true)
split_alts-has_row_example =
    split_alts-has_row list_sets 2 [] merged split (3 ∷ 1 ∷ []) (2 ∷ []) split_run
