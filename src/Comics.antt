-- ===== src/Comics.antt =====
-- DataManager/comic.go, chapter.go and comic_page.go: the actions on comics, their chapters and the
-- pages of these, with the log tables that comic_log.go, chapter_log.go and comic_page_log.go write.
-- A row that a log table gets is appended.
pub mod Actions
pub mod History
pub mod Shift
pub mod Replace
mod Examples
use pbooru.Database.{insert_rows, Table, pair_with}
use pbooru.Log.{Logger, LoggingAction}
use pbooru.Rows.{Entry}
use pbooru.Ints.{ℤ, int_eq}
use pbooru.Prelude.{Bool, List, Outcome, [], none, ok, ℕ, ◌&&◌, ◌++◌, ◌==◌, ◌>>=◌, ◌∷◌}
use pbooru.Text.{Text, text_eq}

pub record Chapter : Type 0 where
  pub comic : ℕ
  pub order : ℤ
  pub title : Text

-- a row of comic_page
pub record ComicPage : Type 0 where
  pub chapter : ℕ
  pub post : ℕ
  pub page : ℤ

pub record Tables : Type 0 where
  pub comics : List (ℕ × Text)
  pub chapters : List (ℕ × Chapter)
  pub pages : List (ℕ × ComicPage)

pub record Serials : Type 0 where
  pub comic : ℕ
  pub chapter : ℕ
  pub page : ℕ

pub record LogTables : Type 0 where
  pub log_comics : List (ℕ × Entry Text)
  pub log_chapters : List (ℕ × Entry Chapter)
  pub log_comic_page : List (ℕ × Entry ComicPage)
  -- (log_id, post_id)
  pub log_post : Table

pub record State : Type 0 where
  pub tables : Tables
  pub serials : Serials
  -- ids of posts
  pub posts : List ℕ
  pub history : LogTables

pub data Error : Type 0 where
  -- a reference to a row that is not there, or is left without its row
  foreign_key : Error
  no_rows invalid_title : Error

abbrev pub ComicLogger : Type 0
ComicLogger = Logger State Error

abbrev pub ComicAction : Type 0
ComicAction = LoggingAction State Error

-- names of logtable: comic, comic_chapter, comic_page
abbrev pub l_comic : ℕ
l_comic = 0

abbrev pub l_chapter : ℕ
l_chapter = 1

abbrev pub l_comic_page : ℕ
l_comic_page = 2

-- the logger that an action returns where it has nothing to log
abbrev pub no_log : ComicLogger
no_log = record { tables = []; fn = none }

-- logComic.log
unfoldable pub log_comic : Entry Text → ℕ → State → Outcome Error State
log_comic e log s =
    ok (record s {
      history = record s.history { log_comics = s.history.log_comics ++ (log, e) ∷ [] };
    })

-- logAffectedPosts
unfoldable pub affect_posts : ℕ → List ℕ → State → State
affect_posts log pids s = record s {
  history = record s.history { log_post = insert_rows (pair_with log pids) s.history.log_post };
}

-- logComicPage.log
unfoldable pub log_page : List ℕ → Entry ComicPage → ℕ → State → Outcome Error State
unfolding affect_posts
log_page pids e log s =
    let s' = affect_posts log pids s in
    ok (record s' {
      history = record s'.history { log_comic_page = s'.history.log_comic_page ++ (log, e) ∷ [] };
    })

-- a list of logComicPage with the posts that each affects
unfoldable pub log_pages : List (List ℕ × Entry ComicPage) → ℕ → State → Outcome Error State
unfolding log_page
log_pages [] log s = ok s
log_pages ((pids, e) ∷ pages) log s = do s' ← log_page pids e log s; log_pages pages log s'

-- logChapter.log
unfoldable pub log_chapter :
    Entry Chapter → List (List ℕ × Entry ComicPage) → ℕ → State → Outcome Error State
unfolding log_pages
log_chapter e pages log s = log_pages pages log (record s {
  history = record s.history { log_chapters = s.history.log_chapters ++ (log, e) ∷ [] };
})

-- `pids` of the pages of DeleteChapter, and of those of ShiftChapterPages
unfoldable pub with_posts : List (Entry ComicPage) → List (List ℕ × Entry ComicPage)
with_posts [] = []
with_posts (e ∷ entries) = (e.value.post ∷ [], e) ∷ with_posts entries

unfoldable pub without_posts : List (Entry ComicPage) → List (List ℕ × Entry ComicPage)
without_posts [] = []
without_posts (e ∷ entries) = ([], e) ∷ without_posts entries

unfoldable pub same_chapter : Chapter → Chapter → Bool
unfolding int_eq text_eq
same_chapter a b = a.comic == b.comic && int_eq a.order b.order && text_eq a.title b.title

unfoldable pub same_page : ComicPage → ComicPage → Bool
unfolding int_eq
same_page a b = a.chapter == b.chapter && a.post == b.post && int_eq a.page b.page
