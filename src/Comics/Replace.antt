-- ===== src/Comics/Replace.antt =====
-- `replaceComicPages` of DataManager/duplicates.go: the pages of the inferiors show the superior.
use pbooru.Rows.Replay.{replay-returned}
use pbooru.Comics.History.Written.{ok_inj, log_page-Writes}
use pbooru.Comics.History.{
  Entries, IsWritten, no_entries, replay_all, IsWritten-none, IsWritten-both,
}
use pbooru.Rows.Serial.{IsSerial}
use pbooru.Log.{call_all, call_fn}
use pbooru.Prelude.{
  >>=-eq-ok, Bool-cases, List, [], ap, arith, inl, inr, mem, ok, refl, some, sym, true, ℕ, ◌==◌,
  ◌∙◌, ◌∷◌, ◌≡◌,
}
use pbooru.Rows.{Entry, entries, returned, update_where, find_row, replay}
use mathlib.Core.Path.{subst}
use pbooru.Tags.Store.{modify}
use pbooru.Comics.{State, ComicPage, ComicLogger, log_page, l_comic_page, Tables}

-- each changed page has a logger of its own, with no affected posts
unfoldable pub page_loggers : List (Entry ComicPage) → List ComicLogger
unfolding log_page
page_loggers [] = []
page_loggers (e ∷ entries) =
    record { tables = l_comic_page ∷ []; fn = some (log_page [] e) } ∷ page_loggers entries

unfoldable pub replace_comic_pages : ℕ → List ℕ → State → State × List ComicLogger
unfolding page_loggers
replace_comic_pages p inferior s =
    let test = λ (c : ComicPage). mem c.post inferior in
    let f = λ (c : ComicPage). record c { post = p } in
    (
      record s { tables = record s.tables { pages = update_where test f s.tables.pages } },
      page_loggers (entries modify (returned test f s.tables.pages)),
    )

page_loggers-written :
    (es : List (Entry ComicPage)) (log : ℕ) (s s' : State)
    → call_all (page_loggers es) log s ≡ ok s'
    → IsWritten log (record no_entries { pages = es }) s.history s'.history × (s'.tables ≡ s.tables)
unfolding page_loggers call_all call_fn
page_loggers-written [] log s s' h =
    subst (λ (v : State). IsWritten log no_entries s.history v.history × (v.tables ≡ s.tables))
      (ok_inj h) (IsWritten-none log s.history, refl)
page_loggers-written (e ∷ es) log s s' h =
    let (s1, h1, h2) = >>=-eq-ok (log_page [] e log s) (call_all (page_loggers es) log) h in
    let (w1, t1) = log_page-Writes [] e log s s1 h1 in
    let (w2, t2) = page_loggers-written es log s1 s' h2 in
    (
      IsWritten-both (record no_entries { pages = e ∷ [] }) (record no_entries { pages = es }) w1
          w2,
      t2 ∙ t1,
    )

shows-update_where :
    (p : ℕ) (inferior : List ℕ) (rows : List (ℕ × ComicPage)) (k : ℕ) (c : ComicPage)
    → find_row k (
        update_where
          (λ (x : ComicPage). mem x.post inferior)
          (λ (x : ComicPage). record x { post = p })
          rows)
      ≡ some c
    → mem c.post inferior ≡ true
    → c.post ≡ p
unfolding find_row update_where
shows-update_where p inferior [] k c h m = cc
shows-update_where p inferior ((id, x) ∷ rows) k c h m = elim (Bool-cases (id == k)) [
  | inl e ↦ elim (Bool-cases (mem x.post inferior)) [
    | inl i ↦
        let same : (record x { post = p }) ≡ c = ground (arith, h, e, i) in
        sym (ap (λ (z : ComicPage). z.post) same)
    | inr o ↦
        let same : x ≡ c = ground (arith, h, e, o) in
        absurd (ground (arith, o, m, ap (λ (z : ComicPage). mem z.post inferior) same))
  ]
  | inr e ↦ shows-update_where p inferior rows k c (ground (arith, h, e)) m
]

-- After the pages of duplicates are replaced, a page shows an inferior only if the superior is one, and
-- what the loggers write, replayed on the tables before, gives the tables after.
pub replace_comic_pages-replayed :
    (p : ℕ) (inferior : List ℕ) (s s' : State) (log : ℕ)
    → IsSerial s.serials.page s.tables.pages
    → call_all (replace_comic_pages p inferior s).1 log (replace_comic_pages p inferior s).0 ≡ ok s'
    → ((k : ℕ) (c : ComicPage)
        → find_row k s'.tables.pages ≡ some c
        → mem c.post inferior ≡ true
        → c.post ≡ p)
      × ((es : Entries) × IsWritten log es s.history s'.history
          × (replay_all es s.tables ≡ s'.tables))
unfolding replace_comic_pages replay
replace_comic_pages-replayed p inferior s s' log serial h =
    let test = λ (c : ComicPage). mem c.post inferior in
    let f = λ (c : ComicPage). record c { post = p } in
    let es = entries modify (returned test f s.tables.pages) in
    let (written, kept) = page_loggers-written es log (replace_comic_pages p inferior s).0 s' h in
    (
      λ k c found.
          shows-update_where p inferior s.tables.pages k c
            (ap (λ (t : Tables). find_row k t.pages) (sym kept) ∙ found),
      (
        record no_entries { pages = es },
        written,
        (λ i. record {
          comics = s.tables.comics;
          chapters = s.tables.chapters;
          pages = replay-returned test f s.tables.pages serial.0 i;
        })
            ∙ sym kept,
      ),
    )
