-- ===== src/Comics/History.antt =====
-- What the log tables of comics tell: the entries that a run writes, replayed on the tables before it,
-- give the tables after it.
pub mod Written
pub mod Told
pub mod Steps
pub mod Runs
use mathlib.Core.List.{append_assoc, append-nil}
use mathlib.Core.Path.{subst}
use pbooru.Rows.Serial.{IsSerial}
use pbooru.Log.{call_fn, valid}
use pbooru.Text.{Text}
use pbooru.Rows.{Entry, replay, replay-append}
use pbooru.Prelude.{List, [], ap, false, ok, refl, sym, ℕ, ◌++◌, ◌∷◌, ◌≡◌, Outcome}
use pbooru.Comics.{
  State, Tables, LogTables, ComicLogger, Chapter, ComicPage, Error, log_comic, log_page, log_pages,
  log_chapter, affect_posts,
}

pub record Entries : Type 0 where
  pub comics : List (Entry Text)
  pub chapters : List (Entry Chapter)
  pub pages : List (Entry ComicPage)

abbrev pub no_entries : Entries
no_entries = record { comics = []; chapters = []; pages = [] }

abbrev pub both : Entries → Entries → Entries
both es fs = record {
  comics = es.comics ++ fs.comics;
  chapters = es.chapters ++ fs.chapters;
  pages = es.pages ++ fs.pages;
}

abbrev pub replay_all : Entries → Tables → Tables
replay_all es t = record {
  comics = replay es.comics t.comics;
  chapters = replay es.chapters t.chapters;
  pages = replay es.pages t.pages;
}

pub replay_all-both :
    (es fs : Entries) (t : Tables) → replay_all (both es fs) t ≡ replay_all fs (replay_all es t)
replay_all-both es fs t = λ i. record {
  comics = replay-append es.comics fs.comics t.comics i;
  chapters = replay-append es.chapters fs.chapters t.chapters i;
  pages = replay-append es.pages fs.pages t.pages i;
}

-- the rows of a log table for entries of one log
abbrev pub stamp : {V : Type 0} → ℕ → List (Entry V) → List (ℕ × Entry V)
stamp log [] = []
stamp log (e ∷ es) = (log, e) ∷ stamp log es

stamp-append :
    {V : Type 0} (log : ℕ) (es fs : List (Entry V))
    → stamp log (es ++ fs) ≡ stamp log es ++ stamp log fs
stamp-append log [] fs = refl
stamp-append log (e ∷ es) fs = ap (λ r. (log, e) ∷ r) (stamp-append log es fs)

-- the entries were appended to the log tables, under the id of the log
pub record IsWritten (log : ℕ) (es : Entries) (h h' : LogTables) : Type 0 where
  pub comics : h'.log_comics ≡ h.log_comics ++ stamp log es.comics
  pub chapters : h'.log_chapters ≡ h.log_chapters ++ stamp log es.chapters
  pub pages : h'.log_comic_page ≡ h.log_comic_page ++ stamp log es.pages

pub IsWritten-none : (log : ℕ) (h : LogTables) → IsWritten log no_entries h h
IsWritten-none log h = record {
  comics = sym (append-nil h.log_comics);
  chapters = sym (append-nil h.log_chapters);
  pages = sym (append-nil h.log_comic_page);
}

pub IsWritten-both :
    {log : ℕ} (es fs : Entries) {h h1 h2 : LogTables}
    → IsWritten log es h h1
    → IsWritten log fs h1 h2
    → IsWritten log (both es fs) h h2
IsWritten-both {log} es fs {h} {h1} {h2} a b = record {
  comics = simp (b.comics, a.comics, append_assoc, stamp-append);
  chapters = simp (b.chapters, a.chapters, append_assoc, stamp-append);
  pages = simp (b.pages, a.pages, append_assoc, stamp-append);
}

-- a logger writes these entries, and leaves the tables
abbrev pub Writes : ComicLogger → Entries → Type 0
Writes l es =
    (log : ℕ) (s s' : State)
    → call_fn l.fn log s ≡ ok s'
    → IsWritten log es s.history s'.history × (s'.tables ≡ s.tables)

-- what an action does, and what its logger says
pub record Step (s : State) (r : State × ComicLogger) : Type 0 where
  pub entries : Entries
  pub writes : Writes r.1 entries
  pub replayed : replay_all entries s.tables ≡ r.0.tables
  pub history : r.0.history ≡ s.history
  pub serial : IsSerial r.0.serials.page r.0.tables.pages
  pub silent : valid r.1 ≡ false → r.0.tables ≡ s.tables

-- every result of the outcome is such a step
abbrev pub Ensures : State → Outcome Error (State × ComicLogger) → Type 0
Ensures s o = (r : State × ComicLogger) → o ≡ ok r → Step s r
