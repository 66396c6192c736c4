-- ===== src/Migrator.antt =====
-- DataManager/migrator: the files and their dependencies (file.go), the queue (queue.go) and the
-- scheduling and execution of migrations (migrate.go).
--
-- The set `applied` is that of github.com/kycklingar/set, and the database is not in the repository
-- either: both are parameters. The iteration order of the map `files` is an argument. `enqueueFile`
-- calls itself for each dependency; it runs on fuel, the depth of the calls.
pub mod Schedule
pub mod Cycles
pub mod Run
pub mod FileFormat
mod Examples
use pbooru.Prelude.{
  ℕ, zero, suc, ◌≡◌, Bool, true, false, ◌||◌, List, [], ◌∷◌, ◌++◌, Option, none, some,
  if◌then◌else◌, Outcome,
}
pub use pbooru.Prelude.{ok, err, ◌>>=◌}
use pbooru.Text.{Text, text_eq}
use pbooru.Maps.{find}

pub record File : Type 0 where
  pub dependencies : List Text
  pub sql : Text

pub data Error : Type 0 where
  -- ErrDependencyMissing
  dependency_missing : Text → Error
  -- ErrFailedMigration
  failed_migration : Text → Error
  -- the insert into schema_migrations, or the installed program, failed
  failed_statement : Error
  -- `dequeue` of an empty queue
  panic : Error
  -- the model's own: the calls of `enqueueFile` went deeper than the fuel
  out_of_fuel : Error

abbrev pub Result {ℓ} : Type ℓ → Type ℓ
Result A = Outcome Error A

-- set.Ordered[fileIdentifier]
pub record AppliedLib : Type 1 where
  pub Applied : Type 0
  pub has_applied : Applied → Text → Bool
  pub set_applied : Applied → Text → Applied
  pub has-set :
      (a : Applied) (x y : Text)
      → has_applied (set_applied a x) y ≡ (text_eq y x || has_applied a y)

-- fileQueue.has
unfoldable pub has : List Text → Text → Bool
has [] fid = false
has (q ∷ queue) fid = text_eq q fid || has queue fid

-- a loop over names that stops at the first error
unfoldable pub each :
    (Text → List Text → Result (List Text)) → List Text → List Text → Result (List Text)
each f [] queue = ok queue
each f (d ∷ ds) queue = do queue' ← f d queue; each f ds queue'

module _ (L : AppliedLib) where
  open L use {Applied, has_applied, set_applied}

  unfoldable pub enqueue_file :
      ℕ → List (Text × File) → Applied → Text → List Text → Result (List Text)
  unfolding each has find
  enqueue_file zero files applied fid queue = err out_of_fuel
  enqueue_file (suc fuel) files applied fid queue = elim (find files fid) [
    | none ↦ err (dependency_missing fid)
    | some file ↦
        let deeper = do
          queue' ← each (enqueue_file fuel files applied) file.dependencies queue
          ok (queue' ++ fid ∷ [])
        in if has queue fid then ok queue else if has_applied applied fid then ok queue else deeper
  ]

  -- EnqueueMigrations: `for fid := range mig.files`, in the order that the map gives
  unfoldable pub enqueue_migrations :
      ℕ → List (Text × File) → Applied → List Text → List Text → Result (List Text)
  enqueue_migrations fuel files applied order queue =
      each (enqueue_file fuel files applied) order queue

-- What the migrator asks of the database: `none` is an error. `exec` runs a file's sql, `record_row`
-- is the insert into schema_migrations as far as anything but its rows goes, and `program` the
-- installed program of a migration, if it has one.
pub record Backend : Type 1 where
  pub State : Type 0
  pub exec : Text → State → Option State
  pub record_row : Text → State → Option State
  pub program : Text → Option (State → Option State)

module _ (L : AppliedLib) (B : Backend) where
  open L use {Applied, set_applied}
  open B use {State, exec, record_row, program}

  -- the set of applied migrations, the rest of the database, and the rows of schema_migrations
  pub record Session : Type 0 where
    pub applied : Applied
    pub state : State
    pub rows : List Text

  -- a missing key of `mig.files` reads as the empty file
  unfoldable pub sql_of : List (Text × File) → Text → Text
  sql_of files fid = elim (find files fid) [ none ↦ [] | some file ↦ file.sql ]

  unfoldable pub run_program : Text → State → Option State
  run_program fid st = elim (program fid) [ none ↦ some st | some prog ↦ prog st ]

  -- executeFile, inside its transaction: on an error the tables are those before
  unfoldable pub execute_file : List (Text × File) → Text → Session → Result (Session)
  unfolding sql_of run_program find
  execute_file files fid s = elim (exec (sql_of files fid) s.state) [
    | none ↦ err (failed_migration fid)
    | some st ↦ elim (record_row fid st) [
      | none ↦ err failed_statement
      | some st' ↦ elim (run_program fid st') [
        | none ↦ err failed_statement
        | some st'' ↦ ok (record {
          applied = set_applied s.applied fid;
          state = st'';
          rows = s.rows ++ fid ∷ [];
        })
      ]
    ]
  ]

  -- the loop of `update` in DataManager/datamanager.go over `Next` and `Execute`: the error that
  -- ended it, if any, and what was committed; `applied` is in memory, and is set before the sql runs
  unfoldable pub run : List (Text × File) → List Text → Session → Option Error × Session
  unfolding execute_file
  run files [] s = (none, s)
  run files (fid ∷ queue) s = elim (execute_file files fid s) [
    | err e ↦ (some e, record s { applied = set_applied s.applied fid })
    | ok s' ↦ run files queue s'
  ]
