-- ===== src/Tags/Parent.antt =====
-- `ParentTags` and `UnparentTags` of DataManager/parent.go. The tag names were parsed, saved and
-- looked up before: a call takes the sets of ids. An error carries no tables (rollback).
pub mod Closure
pub mod Removal
use pbooru.Prelude.{ℕ, Bool, not, ◌&&◌, ◌||◌, List, [], ◌∷◌, mem, keep, if◌then◌else◌, is_empty}
use pbooru.Sets.{SetLib}
use pbooru.Database.{Table, fst, snd, has_row, fst_where, insert_rows, cross}
use pbooru.Tags.Error.{
  Result, ok, err, no_family, not_parents, unique_violation, out_of_fuel, ◌>>=◌, or_fail,
}
use pbooru.Tags.Family.{aliases, parents, upgrade}
use pbooru.Tags.Store.{
  Store, MultiLog, Action, create, delete, multi_logs, distinct, recount, purge_count_cache,
}

pub record ParentLog : Type 0 where
  pub children : List ℕ
  pub parents : List ℕ
  pub action : Action
  pub multi_logs : List MultiLog

-- the inner and the outer loop of `INSERT INTO parent_tags`, under the unique key
unfoldable pub insert_parents_of : ℕ → List ℕ → Table → Result Table
insert_parents_of c [] rows = ok rows
insert_parents_of c (p ∷ ps) rows =
    let rest = insert_parents_of c ps ((p, c) ∷ rows) in
    if has_row p c rows then err unique_violation else rest

unfoldable pub insert_family : List ℕ → List ℕ → Table → Result Table
insert_family [] ps rows = ok rows
insert_family (c ∷ cs) ps rows = do rows' ← insert_parents_of c ps rows; insert_family cs ps rows'

-- `for _, parent := range grandParents { ins.Exec(parent.ID) }`
unfoldable pub insert_ancestors : List ℕ → List ℕ → Table → Table
insert_ancestors children [] ptm = ptm
insert_ancestors children (g ∷ gs) ptm =
    insert_ancestors children gs (insert_rows (cross (fst_where children ptm) (g ∷ [])) ptm)

module _ (S : SetLib) where
  open S use {Set, elems, diff, intersection}

  unfoldable pub write_family : Set → Set → Set → Store → Result (Store × ParentLog)
  write_family children ps grand s = do
    let ptm = s.post_tag_mappings
    let logs =
        multi_logs
          (λ t. distinct (keep (λ p. not (has_row p t ptm)) (fst_where (elems children) ptm)))
          create (elems grand)
    rows ← insert_family (elems children) (elems ps) s.parent_tags
    let written = record s {
      parent_tags = rows;
      post_tag_mappings = insert_ancestors (elems children) (elems grand) ptm;
    }
    ok (
      purge_count_cache (elems grand) (recount (elems grand) written),
      record { children = elems children; parents = elems ps; action = create; multi_logs = logs },
    )

  unfoldable pub parent_tags : Set → Set → Store → Result (Store × ParentLog)
  unfolding write_family
  parent_tags children0 parents0 s = do
    let children = aliases S s.alias children0
    let ps = aliases S s.alias parents0
    grand ← or_fail (upgrade S s.alias s.parent_tags ps) out_of_fuel
    if is_empty (elems children) || is_empty (elems ps)
        then err no_family
        else write_family children ps grand s

  unfoldable pub unparent_tags : Set → Set → Store → Result (Store × ParentLog)
  unparent_tags children parents0 s = do
    family ← or_fail (parents S s.parent_tags children) out_of_fuel
    let ps = intersection parents0 (diff family children)
    let rows =
        keep (λ row. not (mem (fst row) (elems ps) && mem (snd row) (elems children))) s.parent_tags
    if is_empty (elems ps) || is_empty (elems children)
        then err not_parents
        else ok (
          record s { parent_tags = rows },
          record {
            children = elems children;
            parents = elems ps;
            action = delete;
            multi_logs = [];
          },
        )
