-- ===== src/Comics/Examples.antt =====
-- A comic with a chapter of three pages (DataManager/comic.go, chapter.go, comic_page.go).
use pbooru.Comics.Replace.{replace_comic_pages, replace_comic_pages-replayed, page_loggers}
use pbooru.Rows.{entries}
use pbooru.Database.{insert_rows, insert_row, pair_with}
use pbooru.Comics.Shift.{shift_chapter_pages-IsOrdered}
use pbooru.Rows.{find_row, update_where, returned}
use pbooru.Comics.Actions.{
  shift_chapter_pages, is_shifted, create_comic_page, has_refs, has_value, edit_comic, old_title,
}
use pbooru.Comics.History.{Entries, IsWritten, replay_all}
use pbooru.Rows.Serial.{IsSerial}
use pbooru.Tags.Store.{modify, create}
use pbooru.Log.{
  Db, exec, run_actions, valid, insert_log, tables_of, add_tables, insert_tables, call_all, call_fn,
}
use pbooru.Prelude.{
  List, [], arith, map, ok, refl, some, true, ℕ, ◌∷◌, ◌≡◌, mem, false, ◌==◌, if◌then◌else◌,
}
use pbooru.Comics.{
  State, Chapter, ComicPage, l_comic_page, ComicLogger, without_posts, log_pages, log_page,
  affect_posts,
}
use pbooru.Comics.History.Runs.{Command, action_of, exec-replayed}
use pbooru.Text.{codes, text_eq}
use pbooru.Ints.{pos, ◌+ℤ◌, ◌<ℤ◌}

abbrev chapter : Chapter
chapter = record { comic = 1; order = pos 1; title = codes "one" }

abbrev page_at : ℕ → ℕ → ComicPage
page_at post n = record { chapter = 5; post = post; page = pos n }

abbrev start : State
start = record {
  tables = record {
    comics = (1, codes "tale") ∷ [];
    chapters = (5, chapter) ∷ [];
    pages = (11, page_at 20 1) ∷ (12, page_at 21 2) ∷ (13, page_at 22 3) ∷ [];
  };
  serials = record { comic = 2; chapter = 6; page = 14 };
  posts = 20 ∷ 21 ∷ 22 ∷ 23 ∷ [];
  history = record { log_comics = []; log_chapters = []; log_comic_page = []; log_post = [] };
}

abbrev db : Db State
db = record { domain = start; next_log = 3; logs = []; logs_tables = []; logs_tables_altered = [] }

-- a page is put in behind the first
abbrev commands : List Command
commands =
    Command.shift_pages 5 (pos 1) 1 (pos 1)
    ∷ (Command.create_page (page_at 23 2) ∷ (Command.edit_comic 1 (codes "tale") ∷ []))

abbrev finish : State
finish = record start {
  tables = record start.tables {
    pages = (14, page_at 23 2) ∷ (11, page_at 20 1) ∷ (12, page_at 21 3) ∷ (13, page_at 22 4) ∷ [];
  };
  serials = record { comic = 2; chapter = 6; page = 15 };
  history = record start.history {
    log_comic_page =
        (3, record { action = modify; id = 12; value = page_at 21 3 })
        ∷ ((3, record { action = modify; id = 13; value = page_at 22 4 })
            ∷ ((3, record { action = create; id = 14; value = page_at 23 2 }) ∷ []));
    log_post = (3, 23) ∷ [];
  };
}

abbrev finished : Db State
finished = record {
  domain = finish;
  next_log = 4;
  logs = (3, 8) ∷ [];
  logs_tables = l_comic_page ∷ [];
  logs_tables_altered = (3, l_comic_page) ∷ [];
}

exec_runs : exec 8 (map action_of commands) db ≡ ok finished
unfolding exec run_actions action_of shift_chapter_pages is_shifted update_where returned entries
    without_posts log_pages log_page affect_posts insert_rows insert_row pair_with create_comic_page
    has_refs has_value find_row edit_comic old_title text_eq valid insert_log tables_of add_tables
    insert_tables call_all call_fn ◌+ℤ◌
exec_runs = refl

serial : IsSerial start.serials.page start.tables.pages
serial = ((refl, (refl, (refl, tt))), λ k h. ground arith)

exec-replayed_example :
    (es : Entries) × IsWritten 3 es start.history finish.history
    × (replay_all es start.tables ≡ finish.tables)
exec-replayed_example = exec-replayed 8 commands db finished serial exec_runs

abbrev shifted : State
shifted = record start {
  tables = record start.tables {
    pages = (11, page_at 20 1) ∷ (12, page_at 21 3) ∷ (13, page_at 22 4) ∷ [];
  };
}

shift_runs : (l : ComicLogger) × (shift_chapter_pages 5 (pos 1) 1 (pos 1) start ≡ ok (shifted, l))
unfolding shift_chapter_pages is_shifted update_where ◌+ℤ◌
shift_runs = (_, refl)

shift_chapter_pages-IsOrdered_example :
    ((i : ℕ) (p : ComicPage)
      → find_row i start.tables.pages ≡ some p
      → p.chapter ≡ 5
      → (p' : ComicPage) × (find_row i shifted.tables.pages ≡ some p')
        × (p' ≡ (if pos 1 <ℤ p.page then record p { page = p.page +ℤ pos 1 } else p))
        × ((pos 1 <ℤ p'.page) ≡ true → ((pos 1 +ℤ pos 1) <ℤ p'.page) ≡ true))
    × ((i : ℕ) (r : ComicPage)
        → find_row i start.tables.pages ≡ some r
        → (r.chapter == 5) ≡ false
        → find_row i shifted.tables.pages ≡ some r)
    × ((i j : ℕ) (p q : ComicPage)
        → find_row i start.tables.pages ≡ some p
        → find_row j start.tables.pages ≡ some q
        → p.chapter ≡ 5
        → q.chapter ≡ 5
        → (p.page <ℤ q.page) ≡ true
        → (p' : ComicPage) × (q' : ComicPage) × (find_row i shifted.tables.pages ≡ some p')
          × (find_row j shifted.tables.pages ≡ some q')
          × ((p'.page <ℤ q'.page) ≡ true))
shift_chapter_pages-IsOrdered_example =
    shift_chapter_pages-IsOrdered 5 1 (pos 1) start shifted shift_runs.0 shift_runs.1

-- post 21 is a duplicate of post 20
abbrev plucked : State
plucked = record start {
  tables = record start.tables {
    pages = (11, page_at 20 1) ∷ (12, page_at 20 2) ∷ (13, page_at 22 3) ∷ [];
  };
  history = record start.history {
    log_comic_page = (3, record { action = modify; id = 12; value = page_at 20 2 }) ∷ [];
  };
}

replace_runs :
    call_all (replace_comic_pages 20 (21 ∷ []) start).1 3 (replace_comic_pages 20 (21 ∷ []) start).0
    ≡ ok plucked
unfolding replace_comic_pages update_where returned entries page_loggers call_all call_fn log_page
    affect_posts insert_rows pair_with
replace_runs = refl

replace_comic_pages-replayed_example :
    ((k : ℕ) (c : ComicPage)
      → find_row k plucked.tables.pages ≡ some c
      → mem c.post (21 ∷ []) ≡ true
      → c.post ≡ 20)
    × ((es : Entries) × IsWritten 3 es start.history plucked.history
        × (replay_all es start.tables ≡ plucked.tables))
replace_comic_pages-replayed_example =
    replace_comic_pages-replayed 20 (21 ∷ []) start plucked 3 serial replace_runs
