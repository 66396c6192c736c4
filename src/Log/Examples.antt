-- ===== src/Log/Examples.antt =====
-- A run of two actions of user 9: the domain is a number, the tables 4 and 6 are altered.
use pbooru.Prelude.{==_iff, List, [], arith, err, none, ok, refl, some, ℕ, ◌+◌, ◌∷◌, ◌≡◌}
use pbooru.PostTags.Statements.{IsUnique}
use pbooru.Log.{
  LoggingAction, Db, add_tables, insert_tables, valid, has_fn, run_actions, tables_of, call_fn,
  call_all, insert_log, exec,
}
use pbooru.Log.Told.{Told, Acted}
use pbooru.Log.Exec.{IsNumbered, IsLogged, exec-IsLogged, exec_fails}

abbrev db : Db ℕ
db = record {
  domain = 1;
  next_log = 3;
  logs = (2, 9) ∷ [];
  logs_tables = 4 ∷ [];
  logs_tables_altered = (2, 4) ∷ [];
}

abbrev plus : ℕ → LoggingAction ℕ ℕ
plus n s = ok (s + n, record { tables = 4 ∷ 6 ∷ 4 ∷ []; fn = some (λ log x. ok (x + log)) })

-- an action with nothing to log
abbrev quiet : LoggingAction ℕ ℕ
quiet s = ok (s, record { tables = []; fn = none })

abbrev refused : LoggingAction ℕ ℕ
refused s = err 5

abbrev done : Db ℕ
done = record {
  domain = 14;
  next_log = 4;
  logs = (3, 9) ∷ (2, 9) ∷ [];
  logs_tables = 6 ∷ 4 ∷ [];
  logs_tables_altered = (3, 6) ∷ (3, 4) ∷ (2, 4) ∷ [];
}

exec_run : exec 9 (plus 10 ∷ quiet ∷ []) db ≡ ok done
unfolding exec run_actions valid has_fn insert_log tables_of add_tables insert_tables call_all
    call_fn
exec_run = refl

db-IsNumbered : IsNumbered db
db-IsNumbered i t le = ground (arith, ==_iff i 2)

exec-IsLogged_example :
    (s : ℕ) × (told : List (Told ℕ ℕ)) × Acted (plus 10 ∷ quiet ∷ []) 1 s told
    × IsNumbered done
    × IsUnique done.logs_tables_altered
    × IsLogged 9 db done s told
exec-IsLogged_example =
    exec-IsLogged 9 (plus 10 ∷ quiet ∷ []) db done db-IsNumbered (refl, tt) exec_run

quiet_run : run_actions (quiet ∷ []) 1 [] ≡ ok (1, [])
unfolding run_actions valid has_fn
quiet_run = refl

exec_fails_example : exec 9 (quiet ∷ refused ∷ plus 10 ∷ []) db ≡ err 5
exec_fails_example = exec_fails 9 (quiet ∷ []) (plus 10 ∷ []) refused db 1 [] 5 quiet_run refl
