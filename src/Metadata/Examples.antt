-- ===== src/Metadata/Examples.antt =====
-- Metadata of three posts, of which two are duplicates (DataManager/posts_modify.go, duplicates.go).
use pbooru.Metadata.Dated.{Command, action_of, IsDated}
use pbooru.Metadata.Dates.{exec-IsDated}
use pbooru.Metadata.Merged.{any_has, move_metadata_exact}
use pbooru.Metadata.Describe.{move_description, description_of, addenda, descrs, describe_by}
use pbooru.Metadata.Describe.Kept.{IsInfix}
use pbooru.Metadata.Describe.Moved.{move_description_exact}
use pbooru.Database.{insert_row}
use pbooru.Metadata.Facts.{has}
use pbooru.Tags.Store.{create, delete}
use pbooru.Log.{
  Logger, Db, exec, run_actions, valid, has_fn, insert_log, tables_of, add_tables, insert_tables,
  call_all, call_fn,
}
use pbooru.Prelude.{
  List, Option, [], map, mem, none, not, ok, refl, some, ℕ, ◌&&◌, ◌==◌, ◌||◌, ◌∷◌, ◌≡◌, false,
  is_empty, suc, true, zero,
}
use pbooru.Metadata.{
  State, PostRow, date, meta, logged_data, move_metadata, min_created, remove_all, Error, min_of,
  merged, q_metadata, MetaData, add_data, metas_of, remove_data, dates_of,
  update_post_creation_date, removals, set_date, additions, log_data, write_log, table_of,
  change_description, MetaAction,
}
use pbooru.Text.{codes, Text}

abbrev post : ℕ → Option ℕ → PostRow
post id day = record { id = id; creation_date = day; description = [] }

abbrev start : State
start = record {
  posts = post 1 (some 40) ∷ (post 2 (some 30) ∷ (post 3 none ∷ []));
  namespaces = 6 ∷ [];
  post_metadata = record { post = 2; namespace = 6; metadata = codes "src" } ∷ [];
  post_creation_dates = (1, 40) ∷ (2, 30) ∷ (2, 50) ∷ [];
  log_rows = [];
  log_post = [];
}

move_runs :
    move_metadata 1 (2 ∷ []) start
    ≡ remove_data 2 (meta 6 (codes "src"))
      ∷ (remove_data 2 (date 30)
          ∷ (remove_data 2 (date 50)
              ∷ (add_data 1 (meta 6 (codes "src"))
                  ∷ (add_data 1 (date 30) ∷ (add_data 1 (date 50) ∷ [])))))
unfolding move_metadata remove_all merged q_metadata metas_of dates_of removals additions
move_runs = refl

move_metadata_exact_example :
    (s' : State) × (logs : List (Logger State Error)) × (run_actions
        (move_metadata 1 (2 ∷ []) start)
        start
        []
      ≡ ok (s', logs))
    × ((x : ℕ) (m : MetaData)
        → has x m s'
          ≡ (x == 1 && any_has (2 ∷ []) m start || has x m start && not (mem x (2 ∷ []))))
move_metadata_exact_example = move_metadata_exact 1 (2 ∷ []) start refl

abbrev db : Db State
db = record { domain = start; next_log = 3; logs = []; logs_tables = []; logs_tables_altered = [] }

abbrev commands : List Command
commands = Command.add 3 (date 20) ∷ (Command.remove 2 (date 30) ∷ [])

abbrev finish : State
finish = record start {
  posts = post 1 (some 40) ∷ (post 2 (some 50) ∷ (post 3 (some 20) ∷ []));
  post_creation_dates = (3, 20) ∷ (1, 40) ∷ (2, 50) ∷ [];
  log_rows = (3, logged_data create 3 (date 20)) ∷ ((3, logged_data delete 2 (date 30)) ∷ []);
  log_post = (3, 2) ∷ (3, 3) ∷ [];
}

abbrev finished : Db State
finished = record {
  domain = finish;
  next_log = 4;
  logs = (3, 8) ∷ [];
  logs_tables = 1 ∷ [];
  logs_tables_altered = (3, 1) ∷ [];
}

exec_runs : exec 8 (map action_of commands) db ≡ ok finished
unfolding exec run_actions action_of add_data remove_data update_post_creation_date min_created
    min_of set_date log_data write_log insert_row valid has_fn insert_log tables_of add_tables
    insert_tables call_all call_fn table_of
exec_runs = refl

start-IsDated : IsDated start
unfolding min_created min_of
start-IsDated = (refl, (refl, (refl, tt)))

exec-IsDated_example : IsDated finish
exec-IsDated_example = exec-IsDated 8 commands db finished start-IsDated exec_runs

abbrev described : State
described = record start {
  posts =
      record { id = 1; creation_date = none; description = codes "a" }
      ∷ (record { id = 2; creation_date = none; description = codes "b" }
          ∷ (record { id = 3; creation_date = none; description = [] } ∷ []));
}

-- a printer of ids: strokes
abbrev itoa : ℕ → Text
itoa zero = []
itoa (suc n) = b'|' ∷ itoa n

describe_runs :
    move_description itoa 1 (2 ∷ 3 ∷ []) described
    ≡ ok (
        change_description 2 []
        ∷ (change_description 1 (codes "a\n\n---- Addendum of duplicate || ----\nb") ∷ []))
unfolding move_description description_of descrs describe_by addenda
describe_runs = refl

abbrev actions : List MetaAction
actions =
    change_description 2 []
    ∷ (change_description 1 (codes "a\n\n---- Addendum of duplicate || ----\nb") ∷ [])

move_description_exact_example :
    (s' : State) × (logs : List (Logger State Error)) × (run_actions actions described []
      ≡ ok (s', logs))
    × ((x : ℕ)
        → mem x (2 ∷ 3 ∷ []) ≡ false
        → (x == 1) ≡ false
        → description_of x s'.posts ≡ description_of x described.posts)
    × ((d : Text) × (dest : Text) × (description_of 1 described.posts ≡ some dest)
        × (description_of 1 s'.posts ≡ some d)
        × IsInfix dest d
        × ((q : ℕ) (t : Text)
            → mem q (2 ∷ 3 ∷ []) ≡ true
            → description_of q described.posts ≡ some t
            → is_empty t ≡ false
            → (description_of q s'.posts ≡ some []) × IsInfix t d))
move_description_exact_example =
    move_description_exact itoa 1 (2 ∷ 3 ∷ []) described actions refl describe_runs
