-- ===== src/Comics/Actions.antt =====
-- The actions of DataManager/comic.go, chapter.go and comic_page.go.
use pbooru.Tags.Store.{create, modify, delete}
use pbooru.Ints.{ℤ, ◌<ℤ◌, ◌+ℤ◌}
use pbooru.Ints.{ℤ}
use pbooru.Comics.{
  log_comic, Chapter, log_chapter, same_chapter, with_posts, without_posts, ComicPage, log_page,
  same_page, ComicAction, log_pages, State, l_comic, foreign_key, invalid_title, no_rows, l_chapter,
  l_comic_page, no_log,
}
use pbooru.Prelude.{
  Bool, List, Option, [], err, false, if◌then◌else◌, is_empty, mem, none, not, ok, or_fail, some,
  true, ℕ, ◌&&◌, ◌+◌, ◌==◌, ◌>>=◌, ◌∷◌,
}
use pbooru.Text.{Text, text_eq}
use pbooru.Rows.{rows_where, find_row, delete_row, set_row, entries, update_where, returned}

unfoldable pub create_comic : Text → ComicAction
unfolding log_comic
create_comic title s =
    let id = s.serials.comic in
    ok (
      record s {
        tables = record s.tables { comics = (id, title) ∷ s.tables.comics };
        serials = record s.serials { comic = id + 1 };
      },
      record {
        tables = l_comic ∷ [];
        fn = some (log_comic (record { action = create; id = id; value = title }));
      },
    )

-- `oldTitle` stays empty where the row is missing: the error of the query is not looked at
unfoldable pub old_title : Option Text → Text
old_title none = []
old_title (some title) = title

unfoldable pub edit_comic : ℕ → Text → ComicAction
unfolding old_title log_comic
edit_comic id title s =
    let known = find_row id s.tables.comics in
    if is_empty title
    then err invalid_title
    else (if text_eq (old_title known) title
        then ok (s, no_log)
        else ok (
          record s { tables = record s.tables { comics = set_row id title s.tables.comics } },
          record {
            tables = l_comic ∷ [];
            fn = some (log_comic (record { action = modify; id = id; value = title }));
          },
        ))

-- a chapter of the comic is left
unfoldable pub has_chapter : ℕ → List (ℕ × Chapter) → Bool
has_chapter comic rows = not (is_empty (rows_where (λ (c : Chapter). c.comic == comic) rows))

unfoldable pub delete_comic : ℕ → ComicAction
unfolding has_chapter log_comic
delete_comic id s = do
  title ← or_fail (find_row id s.tables.comics) no_rows
  if has_chapter id s.tables.chapters
      then err foreign_key
      else ok (
        record s { tables = record s.tables { comics = delete_row id s.tables.comics } },
        record {
          tables = l_comic ∷ [];
          fn = some (log_comic (record { action = delete; id = id; value = title }));
        },
      )

unfoldable pub create_chapter : ℕ → ℤ → Text → ComicAction
unfolding log_chapter
create_chapter comic order title s = do
  let id = s.serials.chapter
  let chapter : Chapter = record { comic = comic; order = order; title = title }
  _ ← or_fail (find_row comic s.tables.comics) foreign_key
  ok (
    record s {
      tables = record s.tables { chapters = (id, chapter) ∷ s.tables.chapters };
      serials = record s.serials { chapter = id + 1 };
    },
    record {
      tables = l_chapter ∷ [];
      fn = some (log_chapter (record { action = create; id = id; value = chapter }) []);
    },
  )

unfoldable pub edit_chapter : ℕ → ℤ → Text → ComicAction
unfolding same_chapter log_chapter
edit_chapter id order title s = do
  old ← or_fail (find_row id s.tables.chapters) no_rows
  let chapter : Chapter = record { comic = old.comic; order = order; title = title }
  if same_chapter old chapter
      then ok (s, no_log)
      else ok (
        record s { tables = record s.tables { chapters = set_row id chapter s.tables.chapters } },
        record {
          tables = l_chapter ∷ [];
          fn = some (log_chapter (record { action = modify; id = id; value = chapter }) []);
        },
      )

unfoldable pub delete_chapter : ℕ → ComicAction
unfolding with_posts log_chapter
delete_chapter id s = do
  let pages = rows_where (λ (p : ComicPage). p.chapter == id) s.tables.pages
  chapter ← or_fail (find_row id s.tables.chapters) no_rows
  ok (
    record s {
      tables = record s.tables {
        pages = rows_where (λ (p : ComicPage). not (p.chapter == id)) s.tables.pages;
        chapters = delete_row id s.tables.chapters;
      };
    },
    record {
      tables = l_chapter ∷ (if is_empty pages then [] else l_comic_page ∷ []);
      fn = some (
          log_chapter (record { action = delete; id = id; value = chapter })
            (with_posts (entries delete pages)));
    },
  )

-- page > n with symbol 1, and page < n with any other
unfoldable pub is_shifted : ℕ → ℕ → ℤ → ComicPage → Bool
is_shifted chapter symbol n p =
    p.chapter == chapter && (if symbol == 1 then n <ℤ p.page else p.page <ℤ n)

unfoldable pub shift_chapter_pages : ℕ → ℤ → ℕ → ℤ → ComicAction
unfolding is_shifted without_posts log_pages
shift_chapter_pages chapter by symbol n s =
    let test = is_shifted chapter symbol n in
    let f = λ (p : ComicPage). record p { page = p.page +ℤ by } in
    ok (
      record s { tables = record s.tables { pages = update_where test f s.tables.pages } },
      record {
        tables = l_comic_page ∷ [];
        fn = some (log_pages (without_posts (entries modify (returned test f s.tables.pages))));
      },
    )

unfoldable pub has_value : Option Chapter → Bool
has_value none = false
has_value (some c) = true

-- the references of a page
unfoldable pub has_refs : ComicPage → State → Bool
unfolding has_value
has_refs p s = has_value (find_row p.chapter s.tables.chapters) && mem p.post s.posts

unfoldable pub create_comic_page : ComicPage → ComicAction
unfolding has_refs log_page
create_comic_page p s =
    let id = s.serials.page in
    if not (has_refs p s)
    then err foreign_key
    else ok (
      record s {
        tables = record s.tables { pages = (id, p) ∷ s.tables.pages };
        serials = record s.serials { page = id + 1 };
      },
      record {
        tables = l_comic_page ∷ [];
        fn = some (log_page (p.post ∷ []) (record { action = create; id = id; value = p }));
      },
    )

unfoldable pub edit_comic_page : ℕ → ComicPage → ComicAction
unfolding same_page has_refs log_page
edit_comic_page id p s = do
  old ← or_fail (find_row id s.tables.pages) no_rows
  if same_page p old
      then ok (s, no_log)
      else (if not (has_refs p s)
          then err foreign_key
          else ok (
            record s { tables = record s.tables { pages = set_row id p s.tables.pages } },
            record {
              tables = l_comic_page ∷ [];
              fn = some (
                  log_page (p.post ∷ old.post ∷ [])
                    (record { action = modify; id = id; value = p }));
            },
          ))

unfoldable pub delete_comic_page : ℕ → ComicAction
unfolding log_page
delete_comic_page id s = do
  p ← or_fail (find_row id s.tables.pages) no_rows
  ok (
    record s { tables = record s.tables { pages = delete_row id s.tables.pages } },
    record {
      tables = l_comic_page ∷ [];
      fn = some (log_page (p.post ∷ []) (record { action = delete; id = id; value = p }));
    },
  )
