-- ===== src/Tags/Alias.antt =====
-- `AliasTags` and `UnaliasTags` of DataManager/alias.go, with `updatePtm`, `updateDns`,
-- `updateAliases` and `updateParents`. The tag names were parsed and saved before: a call takes the
-- sets of ids. A statement fails only where a key of the schema refuses a row; a failed action is
-- rolled back, so an error carries no tables.
pub mod Run
pub mod Resolution
pub mod Targets
pub mod Posts
pub mod Parents
pub mod Removal
use pbooru.Prelude.{
  ℕ, Bool, not, ◌&&◌, ◌||◌, List, [], ◌∷◌, ◌++◌, length, mem, Option, none, some, keep, ◌==◌,
  if◌then◌else◌, is_empty,
}
use pbooru.Sets.{SetLib, from_list}
use pbooru.Database.{Table, fst, snd, has_row, fst_where, insert_rows, cross, has_key}
use pbooru.Tags.Error.{
  Result, ok, err, many_targets, nothing_to_alias, unique_violation, no_rows, panic, out_of_fuel,
  ◌>>=◌, or_fail,
}
use pbooru.Tags.Family.{aliases, upgrade}
use pbooru.Tags.Store.{
  Store, MultiLog, create, delete, multi_logs, distinct, recount, purge_count_cache,
}

pub record AliasLog : Type 0 where
  pub from : List ℕ
  pub to : ℕ
  pub multi_logs : List MultiLog

-- UPDATE … SET tag_id = to WHERE tag_id = t, and the loop over `from`
unfoldable pub set_fst : ℕ → ℕ → Table → Table
set_fst t to [] = []
set_fst t to ((a, b) ∷ rows) = ((if a == t then to else a), b) ∷ set_fst t to rows

unfoldable pub update_fst : List ℕ → ℕ → Table → Table
unfolding set_fst
update_fst [] to rows = rows
update_fst (t ∷ from) to rows = update_fst from to (set_fst t to rows)

unfoldable pub set_snd : ℕ → ℕ → Table → Table
set_snd t to [] = []
set_snd t to ((a, b) ∷ rows) = (a, (if b == t then to else b)) ∷ set_snd t to rows

unfoldable pub update_snd : List ℕ → ℕ → Table → Table
unfolding set_snd
update_snd [] to rows = rows
update_snd (t ∷ from) to rows = update_snd from to (set_snd t to rows)

unfoldable pub update_dns : List ℕ → ℕ → Store → Store
update_dns from to s = record s { dns_tag_mapping = update_fst from to s.dns_tag_mapping }

unfoldable pub update_aliases : List ℕ → ℕ → Store → Store
update_aliases from to s = record s { alias = update_snd from to s.alias }

-- the rows of the SELECT … UNION SELECT …
unfoldable pub inherited : List ℕ → ℕ → Table → Table
inherited from to [] = []
inherited from to ((parent, child) ∷ rows) =
    let rest = inherited from to rows in
    let rest' = if mem parent from then (to, child) ∷ rest else rest in
    if mem child from then (parent, to) ∷ rest' else rest'

abbrev pub is_stale : List ℕ → ℕ × ℕ → Bool
is_stale from row = fst row == snd row || mem (snd row) from || mem (fst row) from

unfoldable pub update_parents : List ℕ → ℕ → Store → Store
update_parents from to s = record s {
  parent_tags =
      keep (λ row. not (is_stale from row))
        (insert_rows (inherited from to s.parent_tags) s.parent_tags);
}

-- INSERT INTO alias, one row for each tag; alias_from is the primary key
unfoldable pub insert_aliases : List ℕ → ℕ → Table → Result Table
insert_aliases [] to alias = ok alias
insert_aliases (t ∷ from) to alias =
    let rest = insert_aliases from to ((t, to) ∷ alias) in
    if has_key t alias then err unique_violation else rest

module _ (S : SetLib) where
  open S use {Set, elems, union, diff}

  -- the tags that the posts are given, and `updatePtm` once these are known
  unfoldable pub ptm_targets : Set → ℕ → Store → Result Set
  ptm_targets from to s = do
    tos ← or_fail (upgrade S s.alias s.parent_tags (from_list S (to ∷ []))) out_of_fuel
    ufrom ← or_fail (upgrade S s.alias s.parent_tags from) out_of_fuel
    ok (union (diff ufrom from) tos)

  unfoldable pub move_posts : List ℕ → List ℕ → Table → Table
  move_posts from tos ptm =
      keep (λ row. not (mem (snd row) from)) (insert_rows (cross (fst_where from ptm) tos) ptm)

  unfoldable pub update_ptm : Set → ℕ → Store → Result (Store × List MultiLog)
  unfolding ptm_targets
  update_ptm from to s = do
    tos ← ptm_targets from to s
    let ptm = s.post_tag_mappings
    let removed = multi_logs (λ t. fst_where (t ∷ []) ptm) delete (elems from)
    let added =
        multi_logs (λ t. distinct (keep (λ p. not (has_row p t ptm)) (fst_where (elems from) ptm)))
          create (elems tos)
    let all = elems (union tos from)
    let moved = record s { post_tag_mappings = move_posts (elems from) (elems tos) ptm }
    ok (purge_count_cache all (recount all moved), removed ++ added)

  unfoldable pub write_alias : Set → ℕ → Store → Result (Store × AliasLog)
  write_alias from to s = do
    (s1, logs) ← update_ptm from to s
    let s2 =
        update_parents (elems from) to
          (update_aliases (elems from) to (update_dns (elems from) to s1))
    rows ← insert_aliases (elems from) to s2.alias
    ok (record s2 { alias = rows }, record { from = elems from; to = to; multi_logs = logs })

  -- the first element of the resolved target set is the target
  unfoldable pub alias_to : Set → List ℕ → Set → Store → Result (Store × AliasLog)
  unfolding write_alias
  alias_to fromts [] tos s = err panic
  alias_to fromts (to ∷ rest) tos s =
      let from = diff fromts tos in
      if is_empty (elems from) then err nothing_to_alias else write_alias from to s

  unfoldable pub alias_tags : Set → Set → Store → Result (Store × AliasLog)
  unfolding alias_to
  alias_tags fromts tots s =
      let tos = aliases S s.alias tots in
      if not (length (elems tots) == 1)
      then err many_targets
      else if is_empty (elems fromts)
      then err nothing_to_alias
      else alias_to fromts (elems tos) tos s

-- the row of the primary key
unfoldable pub alias_of : ℕ → Table → Option ℕ
alias_of t [] = none
alias_of t ((from, to) ∷ rows) = if from == t then some to else alias_of t rows

-- the log's map from a target to the tags that pointed at it
unfoldable pub log_under : ℕ → ℕ → List (ℕ × List ℕ) → List (ℕ × List ℕ)
log_under to f [] = (to, f ∷ []) ∷ []
log_under to f ((t, fs) ∷ lun) =
    if t == to then (t, fs ++ f ∷ []) ∷ lun else (t, fs) ∷ log_under to f lun

-- `for _, f := range from` of UnaliasTags: the tables' and the log's state after the loop
unfoldable pub unalias_tags :
    List ℕ → Table → List (ℕ × List ℕ) → Result (Table × List (ℕ × List ℕ))
unalias_tags [] alias lun = ok (alias, lun)
unalias_tags (f ∷ from) alias lun = do
  to ← or_fail (alias_of f alias) no_rows
  unalias_tags from (keep (λ row. not (fst row == f && snd row == to)) alias) (log_under to f lun)
