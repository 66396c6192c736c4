-- ===== src/Comics/History/Written.antt =====
-- What the log functions of comics write.
use pbooru.Comics.History.{IsWritten, Writes, no_entries, IsWritten-none, IsWritten-both}
use pbooru.Text.{Text}
use pbooru.Rows.{Entry}
use pbooru.Log.{call_fn}
use pbooru.Prelude.{
  >>=-eq-ok, List, Outcome, [], arith, ok, refl, some, sym, ℕ, ◌++◌, ◌∙◌, ◌∷◌, ◌≡◌,
}
use mathlib.Core.List.{append-nil}
use pbooru.Comics.{
  State, Error, log_page, log_pages, log_chapter, log_comic, ComicPage, affect_posts, Chapter,
}
use mathlib.Core.Path.{subst}

pub ok_inj : {V : Type 0} {a b : V} → ◌≡◌ {A = Outcome Error V} (ok a) (ok b) → a ≡ b
ok_inj h = ground (arith, h)

pub log_comic-Writes :
    (tables : List ℕ) (e : Entry Text)
    → Writes
        (record { tables = tables; fn = some (log_comic e) })
        (record no_entries { comics = e ∷ [] })
unfolding call_fn log_comic
log_comic-Writes tables e log s s' h =
    let done = ok_inj h in
    subst
      (λ (t : State).
        IsWritten log (record no_entries { comics = e ∷ [] }) s.history t.history
        × (t.tables ≡ s.tables))
      done
      (
        record {
          comics = refl;
          chapters = sym (append-nil s.history.log_chapters);
          pages = sym (append-nil s.history.log_comic_page);
        },
        refl,
      )

unfoldable pub entries_of : List (List ℕ × Entry ComicPage) → List (Entry ComicPage)
entries_of [] = []
entries_of ((pids, e) ∷ pages) = e ∷ entries_of pages

pub log_page-Writes :
    (pids : List ℕ) (e : Entry ComicPage) (log : ℕ) (s s' : State)
    → log_page pids e log s ≡ ok s'
    → IsWritten log (record no_entries { pages = e ∷ [] }) s.history s'.history
      × (s'.tables ≡ s.tables)
unfolding log_page affect_posts
log_page-Writes pids e log s s' h =
    subst
      (λ (t : State).
        IsWritten log (record no_entries { pages = e ∷ [] }) s.history t.history
        × (t.tables ≡ s.tables))
      (ok_inj h)
      (
        record {
          comics = sym (append-nil s.history.log_comics);
          chapters = sym (append-nil s.history.log_chapters);
          pages = refl;
        },
        refl,
      )

pub log_pages-Writes :
    (pages : List (List ℕ × Entry ComicPage)) (log : ℕ) (s s' : State)
    → log_pages pages log s ≡ ok s'
    → IsWritten log (record no_entries { pages = entries_of pages }) s.history s'.history
      × (s'.tables ≡ s.tables)
unfolding log_pages entries_of
log_pages-Writes [] log s s' h =
    subst (λ (t : State). IsWritten log no_entries s.history t.history × (t.tables ≡ s.tables))
      (ok_inj h) (IsWritten-none log s.history, refl)
log_pages-Writes ((pids, e) ∷ pages) log s s' h =
    let (s1, h1, h2) = >>=-eq-ok (log_page pids e log s) (log_pages pages log) h in
    let (w1, t1) = log_page-Writes pids e log s s1 h1 in
    let (w2, t2) = log_pages-Writes pages log s1 s' h2 in
    (
      IsWritten-both (record no_entries { pages = e ∷ [] })
          (record no_entries { pages = entries_of pages }) w1 w2,
      t2 ∙ t1,
    )

pub log_chapter-Writes :
    (e : Entry Chapter) (pages : List (List ℕ × Entry ComicPage)) (log : ℕ) (s s' : State)
    → log_chapter e pages log s ≡ ok s'
    → IsWritten log
        (record no_entries { chapters = e ∷ []; pages = entries_of pages })
        s.history
        s'.history
      × (s'.tables ≡ s.tables)
unfolding log_chapter
log_chapter-Writes e pages log s s' h =
    let s1 : State = record s {
      history = record s.history { log_chapters = s.history.log_chapters ++ (log, e) ∷ [] };
    } in
    let w1 : IsWritten log (record no_entries { chapters = e ∷ [] }) s.history s1.history = record {
      comics = sym (append-nil s.history.log_comics);
      chapters = refl;
      pages = sym (append-nil s.history.log_comic_page);
    } in
    let (w2, t2) = log_pages-Writes pages log s1 s' h in
    (
      IsWritten-both (record no_entries { chapters = e ∷ [] })
          (record no_entries { pages = entries_of pages }) w1 w2,
      t2,
    )
