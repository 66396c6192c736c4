-- ===== src/Tags/Error.antt =====
-- The errors that a logging action of the tag domain returns.
use pbooru.Prelude.{Outcome}
pub use pbooru.Prelude.{ok, err, ◌>>=◌, or_fail, >>=-eq-ok, or_fail-eq-ok}

pub data Error : Type 0 where
  -- "cannot create an alias to multiple tags"
  many_targets : Error
  -- "nothing to alias from"
  nothing_to_alias : Error
  -- "parent tags: no children or parents present"
  no_family : Error
  -- "not childs parents"
  not_parents : Error
  -- "nothing to do"
  nothing_to_do : Error
  -- a unique or primary key refuses the row
  unique_violation : Error
  -- sql.ErrNoRows
  no_rows : Error
  -- an index out of range
  panic : Error
  -- the model's own: the loop of `parents` ran out of fuel
  out_of_fuel : Error

abbrev pub Result {ℓ} : Type ℓ → Type ℓ
Result A = Outcome Error A
