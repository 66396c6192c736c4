-- ===== src/Log.antt =====
-- `UserActions` of DataManager/log.go: the actions of a user run in one transaction, and what they log
-- hangs on one row of `logs`. An action and a log function are functions on the tables of the domain,
-- `S` here. The id of a table's name stands for the name. An error carries no tables (rollback).
pub mod Told
pub mod Exec
mod Examples
use pbooru.Prelude.{
  ℕ, Bool, List, Option, Outcome, [], false, if◌then◌else◌, is_empty, mem, none, not, ok, some,
  true, ◌++◌, ◌+◌, ◌>>=◌, ◌||◌, ◌∷◌,
}
use pbooru.Database.{Table}

pub record Logger (S E : Type 0) : Type 0 where
  pub tables : List ℕ
  pub fn : Option (ℕ → S → Outcome E S)

abbrev pub LoggingAction : Type 0 → Type 0 → Type 0
LoggingAction S E = S → Outcome E (S × Logger S E)

-- the domain, `logs` (log_id, user_id), the names in `logs_tables`, and `logs_tables_altered`
pub record Db (S : Type 0) : Type 0 where
  pub domain : S
  pub next_log : ℕ
  pub logs : Table
  pub logs_tables : List ℕ
  pub logs_tables_altered : Table

-- the map of the tables that were seen, and what is appended to `tables`
unfoldable pub add_tables : List ℕ → List ℕ → List ℕ
add_tables [] tables = tables
add_tables (t ∷ ts) tables = add_tables ts (if mem t tables then tables else tables ++ t ∷ [])

-- INSERT … ON CONFLICT DO NOTHING, and the row for the log
unfoldable pub insert_tables : ℕ → List ℕ → List ℕ → Table → List ℕ × Table
insert_tables log [] names altered = (names, altered)
insert_tables log (t ∷ ts) names altered =
    insert_tables log ts (if mem t names then names else t ∷ names) ((log, t) ∷ altered)

module _ {S E : Type 0} where
  unfoldable pub has_fn : Option (ℕ → S → Outcome E S) → Bool
  has_fn none = false
  has_fn (some fn) = true

  unfoldable pub valid : Logger S E → Bool
  unfolding has_fn
  valid l = not (is_empty l.tables || not (has_fn l.fn))

  -- the loop over the actions: the domain, and the valid loggers
  unfoldable pub run_actions :
      List (LoggingAction S E) → S → List (Logger S E) → Outcome E (S × List (Logger S E))
  unfolding valid
  run_actions [] s logs = ok (s, logs)
  run_actions (act ∷ actions) s logs = do
    (s', l) ← act s
    run_actions actions s' (if valid l then logs ++ l ∷ [] else logs)

  -- spine.tables
  unfoldable pub tables_of : List (Logger S E) → List ℕ → List ℕ
  unfolding add_tables
  tables_of [] tables = tables
  tables_of (l ∷ logs) tables = tables_of logs (add_tables l.tables tables)

  unfoldable pub call_fn : Option (ℕ → S → Outcome E S) → ℕ → S → Outcome E S
  call_fn none log s = ok s
  call_fn (some fn) log s = fn log s

  unfoldable pub call_all : List (Logger S E) → ℕ → S → Outcome E S
  unfolding call_fn
  call_all [] log s = ok s
  call_all (l ∷ logs) log s = do s' ← call_fn l.fn log s; call_all logs log s'

  -- spine.insert
  unfoldable pub insert_log : ℕ → List (Logger S E) → Db S → Outcome E (Db S)
  unfolding tables_of insert_tables call_all
  insert_log user logs db = do
    let (names, altered) =
        insert_tables db.next_log (tables_of logs []) db.logs_tables db.logs_tables_altered
    s ← call_all logs db.next_log db.domain
    ok (record {
      domain = s;
      next_log = db.next_log + 1;
      logs = (db.next_log, user) ∷ db.logs;
      logs_tables = names;
      logs_tables_altered = altered;
    })

  unfoldable pub exec : ℕ → List (LoggingAction S E) → Db S → Outcome E (Db S)
  unfolding run_actions insert_log
  exec user actions db = do
    (s, logs) ← run_actions actions db.domain []
    if is_empty logs
        then ok (record db { domain = s })
        else insert_log user logs (record db { domain = s })
