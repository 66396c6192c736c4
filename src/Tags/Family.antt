-- ===== src/Tags/Family.antt =====
-- `aliasedTo` of DataManager/alias.go, and `aliases`, `parents` and `upgrade` of tagSetChain in
-- DataManager/tag_set_q.go. The queries read the tables `alias` (alias_from, alias_to) and
-- `parent_tags` (parent_id, child_id). The loop of `parents` runs on fuel.
pub mod Ancestors
pub mod Closure
use pbooru.Prelude.{
  ℕ, zero, suc, ◌+◌, Bool, List, [], ◌∷◌, Option, none, some, length, mem, ◌==◌, if◌then◌else◌,
  keep, not,
}
use pbooru.Sets.{SetLib, add_all}
use pbooru.Database.{Table, fst_where}

-- the aliased tag, or the tag itself where the alias table has no row for it
unfoldable pub aliased_to : Table → ℕ → ℕ
aliased_to [] tag = tag
aliased_to ((from, to) ∷ rows) tag = if from == tag then to else aliased_to rows tag

module _ (S : SetLib) where
  open S use {Set, elems, new, add, has, union}

  -- `for _, tag := range chain.set { aliased.Set(aliasedTo(tag)) }`
  unfoldable pub add_aliased : Table → List ℕ → Set → Set
  add_aliased alias [] aliased = aliased
  add_aliased alias (tag ∷ tags) aliased =
      add_aliased alias tags (add (aliased_to alias tag) aliased)

  unfoldable pub aliases : Table → Set → Set
  aliases alias set = add_aliased alias (elems set) new

  -- one round's rows: `chain.set.Set(t)`, and what was not queried yet
  unfoldable pub fresh : Set → List ℕ → Set → Set
  fresh queried [] to_query = to_query
  fresh queried (t ∷ rows) to_query =
      fresh queried rows (if has queried t then to_query else add t to_query)

  unfoldable pub parents_loop : ℕ → Table → Set → Set → Set → Option Set
  unfolding fresh
  parents_loop zero parent_tags set queried to_query = none
  parents_loop (suc fuel) parent_tags set queried to_query =
      let queried' = union queried to_query in
      let rows = fst_where (elems to_query) parent_tags in
      let rest =
        parents_loop fuel parent_tags (add_all S rows set) queried' (fresh queried' rows new) in
      if length (elems to_query) == 0 then some set else rest

  -- enough fuel: each round but the first queries a parent for the first time
  abbrev pub parents_fuel : Table → ℕ
  parents_fuel parent_tags = length parent_tags + 2

  unfoldable pub parents : Table → Set → Option Set
  parents parent_tags set = parents_loop (parents_fuel parent_tags) parent_tags set new set

  unfoldable pub upgrade : Table → Table → Set → Option Set
  upgrade alias parent_tags set = parents parent_tags (aliases alias set)
