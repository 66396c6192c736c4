-- ===== src/Rows.antt =====
-- Tables with a serial key, as lists of rows with their ids, and the entries that the log tables keep
-- of them (DataManager/log.go: `create`, `modify`, `delete`).
pub mod Serial
pub mod Replay
use mathlib.Core.Path.{subst}
use pbooru.Sets.{IsDistinct}
use pbooru.Tags.Store.{Action}
use pbooru.Prelude.{
  Bool, List, Option, [], if◌then◌else◌, none, refl, some, ℕ, ◌++◌, ◌==◌, ◌∷◌, ◌≡◌,
}
use pbooru.Tags.Store.{Action, create, modify, delete}

module _ {V : Type 0} where
  -- SELECT … WHERE id = k
  unfoldable pub find_row : ℕ → List (ℕ × V) → Option V
  find_row k [] = none
  find_row k ((id, v) ∷ rows) = if id == k then some v else find_row k rows

  -- UPDATE … WHERE id = k
  unfoldable pub set_row : ℕ → V → List (ℕ × V) → List (ℕ × V)
  set_row k new [] = []
  set_row k new ((id, v) ∷ rows) = (id, (if id == k then new else v)) ∷ set_row k new rows

  -- DELETE … WHERE id = k
  unfoldable pub delete_row : ℕ → List (ℕ × V) → List (ℕ × V)
  delete_row k [] = []
  delete_row k ((id, v) ∷ rows) =
      let rest = delete_row k rows in if id == k then rest else (id, v) ∷ rest

  -- the rows that pass a test
  unfoldable pub rows_where : (V → Bool) → List (ℕ × V) → List (ℕ × V)
  rows_where test [] = []
  rows_where test ((id, v) ∷ rows) =
      let rest = rows_where test rows in if test v then (id, v) ∷ rest else rest

  -- UPDATE … SET … WHERE test
  unfoldable pub update_where : (V → Bool) → (V → V) → List (ℕ × V) → List (ℕ × V)
  update_where test f [] = []
  update_where test f ((id, v) ∷ rows) =
      (id, (if test v then f v else v)) ∷ update_where test f rows

pub record Entry (V : Type 0) : Type 0 where
  pub action : Action
  pub id : ℕ
  pub value : V

module _ {V : Type 0} where
  -- what an entry says that was done
  unfoldable pub apply : Action → ℕ → V → List (ℕ × V) → List (ℕ × V)
  unfolding set_row delete_row
  apply create k v rows = (k, v) ∷ rows
  apply modify k v rows = set_row k v rows
  apply delete k v rows = delete_row k rows

  unfoldable pub replay : List (Entry V) → List (ℕ × V) → List (ℕ × V)
  unfolding apply
  replay [] rows = rows
  replay (e ∷ entries) rows = replay entries (apply e.action e.id e.value rows)

  pub replay-append :
      (es fs : List (Entry V)) (rows : List (ℕ × V))
      → replay (es ++ fs) rows ≡ replay fs (replay es rows)
  unfolding replay
  replay-append [] fs rows = refl
  replay-append (e ∷ es) fs rows = replay-append es fs (apply e.action e.id e.value rows)

  -- UPDATE … RETURNING: the rows that were changed
  unfoldable pub returned : (V → Bool) → (V → V) → List (ℕ × V) → List (ℕ × V)
  returned test f [] = []
  returned test f ((id, v) ∷ rows) =
      let rest = returned test f rows in if test v then (id, f v) ∷ rest else rest

  -- one entry for each row
  unfoldable pub entries : Action → List (ℕ × V) → List (Entry V)
  entries action [] = []
  entries action ((id, v) ∷ rows) =
      record { action = action; id = id; value = v } ∷ entries action rows
