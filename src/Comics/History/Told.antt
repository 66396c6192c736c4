-- ===== src/Comics/History/Told.antt =====
-- Each logger of the actions on comics tells the entries that it writes.
use pbooru.Rows.{Entry}
use pbooru.Log.{call_fn, valid}
use pbooru.Text.{Text}
use pbooru.Comics.History.{Step, no_entries, replay_all}
use pbooru.Rows.Serial.{IsSerial}
use pbooru.Comics.History.Written.{
  entries_of, log_comic-Writes, log_page-Writes, log_chapter-Writes, log_pages-Writes,
}
use pbooru.Prelude.{List, Outcome, [], ap, refl, ℕ, ◌∷◌, ◌≡◌, false, some}
use pbooru.Comics.{
  State, with_posts, without_posts, ComicPage, Error, l_comic, Chapter, log_comic, l_chapter,
  l_comic_page, log_chapter, log_page, log_pages, ComicLogger,
}

pub entries_of-with_posts : (es : List (Entry ComicPage)) → entries_of (with_posts es) ≡ es
unfolding entries_of with_posts
entries_of-with_posts [] = refl
entries_of-with_posts (e ∷ es) = ap (λ r. e ∷ r) (entries_of-with_posts es)

pub entries_of-without_posts : (es : List (Entry ComicPage)) → entries_of (without_posts es) ≡ es
unfolding entries_of without_posts
entries_of-without_posts [] = refl
entries_of-without_posts (e ∷ es) = ap (λ r. e ∷ r) (entries_of-without_posts es)

abbrev logs_one : ℕ → List ℕ → (ℕ → State → Outcome Error State) → ComicLogger
logs_one t ts fn = record { tables = t ∷ ts; fn = some fn }

loud :
    (t : ℕ) (ts : List ℕ) (fn : ℕ → State → Outcome Error State)
    → valid (logs_one t ts fn) ≡ false
    → ⊥
unfolding valid
loud t ts fn h = cc

module _ (s : State) where
  pub comic-Step :
      (e : Entry Text) (s' : State)
      → replay_all (record no_entries { comics = e ∷ [] }) s.tables ≡ s'.tables
      → s'.history ≡ s.history
      → IsSerial s'.serials.page s'.tables.pages
      → Step s (s', logs_one l_comic [] (log_comic e))
  unfolding call_fn
  comic-Step e s' replayed same serial' = record {
    entries = record no_entries { comics = e ∷ [] };
    writes = log_comic-Writes (l_comic ∷ []) e;
    replayed = replayed;
    history = same;
    serial = serial';
    silent = λ h. absurd (loud l_comic [] (log_comic e) h);
  }

  pub chapter-Step :
      (ts : List ℕ) (e : Entry Chapter) (ps : List (List ℕ × Entry ComicPage)) (s' : State)
      → replay_all (record no_entries { chapters = e ∷ []; pages = entries_of ps }) s.tables
        ≡ s'.tables
      → s'.history ≡ s.history
      → IsSerial s'.serials.page s'.tables.pages
      → Step s (s', logs_one l_chapter ts (log_chapter e ps))
  unfolding call_fn
  chapter-Step ts e ps s' replayed same serial' = record {
    entries = record no_entries { chapters = e ∷ []; pages = entries_of ps };
    writes = λ log t t' h. log_chapter-Writes e ps log t t' h;
    replayed = replayed;
    history = same;
    serial = serial';
    silent = λ h. absurd (loud l_chapter ts (log_chapter e ps) h);
  }

  pub page-Step :
      (pids : List ℕ) (e : Entry ComicPage) (s' : State)
      → replay_all (record no_entries { pages = e ∷ [] }) s.tables ≡ s'.tables
      → s'.history ≡ s.history
      → IsSerial s'.serials.page s'.tables.pages
      → Step s (s', logs_one l_comic_page [] (log_page pids e))
  unfolding call_fn
  page-Step pids e s' replayed same serial' = record {
    entries = record no_entries { pages = e ∷ [] };
    writes = λ log t t' h. log_page-Writes pids e log t t' h;
    replayed = replayed;
    history = same;
    serial = serial';
    silent = λ h. absurd (loud l_comic_page [] (log_page pids e) h);
  }

  pub pages-Step :
      (ps : List (List ℕ × Entry ComicPage)) (s' : State)
      → replay_all (record no_entries { pages = entries_of ps }) s.tables ≡ s'.tables
      → s'.history ≡ s.history
      → IsSerial s'.serials.page s'.tables.pages
      → Step s (s', logs_one l_comic_page [] (log_pages ps))
  unfolding call_fn
  pages-Step ps s' replayed same serial' = record {
    entries = record no_entries { pages = entries_of ps };
    writes = λ log t t' h. log_pages-Writes ps log t t' h;
    replayed = replayed;
    history = same;
    serial = serial';
    silent = λ h. absurd (loud l_comic_page [] (log_pages ps) h);
  }
