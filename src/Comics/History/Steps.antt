-- ===== src/Comics/History/Steps.antt =====
-- Each action on comics is a step that its logger tells in full.
use pbooru.Tags.Store.{create, modify, delete}
use pbooru.Ints.{ℤ, ◌+ℤ◌}
use pbooru.Rows.{
  set_row, update_where, entries, returned, rows_where, replay, apply, delete_row, find_row,
}
use pbooru.Rows.Replay.{replay-rows_where, replay-returned}
use pbooru.Log.{call_fn}
use pbooru.Text.{Text, text_eq}
use pbooru.Comics.Actions.{
  create_comic, edit_comic, delete_comic, create_chapter, edit_chapter, delete_chapter,
  shift_chapter_pages, create_comic_page, edit_comic_page, delete_comic_page, is_shifted, has_refs,
  old_title, has_chapter,
}
use pbooru.Comics.History.{Step, Ensures, IsWritten, no_entries, IsWritten-none}
use pbooru.Rows.Serial.{
  IsSerial, insert-IsSerial, set_row-IsSerial, delete_row-IsSerial, rows_where-IsSerial,
  update_where-IsSerial,
}
use pbooru.Comics.History.Written.{entries_of, ok_inj}
use pbooru.Prelude.{
  Outcome, [], ap, ok, refl, ℕ, ◌∷◌, ◌≡◌, ◌==◌, ◌∙◌, Bool-cases, Option-cases, arith, if◌then◌else◌,
  inl, inr, is_empty, not, ◌+◌,
}
use mathlib.Core.Path.{subst}
use pbooru.Comics.{
  State, with_posts, without_posts, no_log, ComicPage, Error, Chapter, l_comic_page, same_chapter,
  same_page,
}
use pbooru.Comics.History.Told.{
  entries_of-with_posts, entries_of-without_posts, comic-Step, chapter-Step, page-Step, pages-Step,
}

module _ (s : State) (serial : IsSerial s.serials.page s.tables.pages) where
  nothing : Step s (s, no_log)
  nothing = record {
    entries = no_entries;
    writes = λ log t t' h. unfold call_fn in (unchanged log t t' h);
    replayed = unfold replay in refl;
    history = refl;
    serial = serial;
    silent = λ _. refl;
  }
    where
      unchanged :
          (log : ℕ) (t t' : State)
          → ◌≡◌ {A = Outcome Error State} (ok t) (ok t')
          → IsWritten log no_entries t.history t'.history × (t'.tables ≡ t.tables)
      unchanged log t t' h =
          subst
            (λ (v : State). IsWritten log no_entries t.history v.history × (v.tables ≡ t.tables))
            (ok_inj h) (IsWritten-none log t.history, refl)

  pub create_comic-Step : (title : Text) → Ensures s (create_comic title s)
  unfolding create_comic replay apply
  create_comic-Step title r h = subst (Step s) (ok_inj h) (
      comic-Step s (record { action = create; id = s.serials.comic; value = title })
        (record s {
          tables = record s.tables { comics = (s.serials.comic, title) ∷ s.tables.comics };
          serials = record s.serials { comic = s.serials.comic + 1 };
        })
        refl refl serial)

  pub edit_comic-Step : (id : ℕ) (title : Text) → Ensures s (edit_comic id title s)
  unfolding edit_comic replay apply
  edit_comic-Step id title r h = elim (Bool-cases (is_empty title)) [
    | inl e ↦ absurd (ground (arith, e, h))
    | inr e ↦ elim (Bool-cases (text_eq (old_title (find_row id s.tables.comics)) title)) [
      | inl k ↦ subst (Step s) (ground (arith, e, k, h)) nothing
      | inr k ↦ subst (Step s) (ground (arith, e, k, h)) (
          comic-Step s (record { action = modify; id = id; value = title })
            (record s { tables = record s.tables { comics = set_row id title s.tables.comics } })
            refl refl serial)
    ]
  ]

  pub delete_comic-Step : (id : ℕ) → Ensures s (delete_comic id s)
  unfolding delete_comic replay apply
  delete_comic-Step id r h = elim (Option-cases (find_row id s.tables.comics)) [
    | inl e ↦ absurd (ground (arith, e, h))
    | inr (title, e) ↦ elim (Bool-cases (has_chapter id s.tables.chapters)) [
      | inl k ↦ absurd (ground (arith, e, k, h))
      | inr k ↦ subst (Step s) (ground (arith, e, k, h)) (
          comic-Step s (record { action = delete; id = id; value = title })
            (record s { tables = record s.tables { comics = delete_row id s.tables.comics } }) refl
            refl serial)
    ]
  ]

  pub create_chapter-Step :
      (comic : ℕ) (order : ℤ) (title : Text) → Ensures s (create_chapter comic order title s)
  unfolding create_chapter replay apply entries_of
  create_chapter-Step comic order title r h =
      let new' : Chapter = record { comic = comic; order = order; title = title } in
      elim (Option-cases (find_row comic s.tables.comics)) [
        | inl e ↦ absurd (ground (arith, e, h))
        | inr (known, e) ↦ subst (Step s) (ground (arith, e, h)) (
            chapter-Step s [] (record { action = create; id = s.serials.chapter; value = new' }) []
              (record s {
                tables = record s.tables {
                  chapters = (s.serials.chapter, new') ∷ s.tables.chapters;
                };
                serials = record s.serials { chapter = s.serials.chapter + 1 };
              })
              refl refl serial)
      ]

  pub edit_chapter-Step :
      (id : ℕ) (order : ℤ) (title : Text) → Ensures s (edit_chapter id order title s)
  unfolding edit_chapter replay apply entries_of
  edit_chapter-Step id order title r h = elim (Option-cases (find_row id s.tables.chapters)) [
    | inl e ↦ absurd (ground (arith, e, h))
    | inr (old, e) ↦
        let new' : Chapter = record { comic = old.comic; order = order; title = title } in
        elim (Bool-cases (same_chapter old new')) [
          | inl k ↦ subst (Step s) (ground (arith, e, k, h)) nothing
          | inr k ↦ subst (Step s) (ground (arith, e, k, h)) (
              chapter-Step s [] (record { action = modify; id = id; value = new' }) []
                (record s {
                  tables = record s.tables { chapters = set_row id new' s.tables.chapters };
                })
                refl refl serial)
        ]
  ]

  pub delete_chapter-Step : (id : ℕ) → Ensures s (delete_chapter id s)
  unfolding delete_chapter replay apply
  delete_chapter-Step id r h =
      let test = λ (p : ComicPage). p.chapter == id in
      let others = λ (p : ComicPage). not (p.chapter == id) in
      let gone = rows_where test s.tables.pages in
      let es = entries delete gone in
      elim (Option-cases (find_row id s.tables.chapters)) [
        | inl e ↦ absurd (ground (arith, e, h))
        | inr (chapter, e) ↦ subst (Step s) (ground (arith, e, h)) (
            chapter-Step s (if is_empty gone then [] else l_comic_page ∷ [])
              (record { action = delete; id = id; value = chapter }) (with_posts es)
              (record s {
                tables = record s.tables {
                  pages = rows_where others s.tables.pages;
                  chapters = delete_row id s.tables.chapters;
                };
              })
              (λ i. record {
                comics = s.tables.comics;
                chapters = delete_row id s.tables.chapters;
                pages =
                    (ap (λ r. replay r s.tables.pages) (entries_of-with_posts es)
                        ∙ replay-rows_where test s.tables.pages serial.0)
                      i;
              })
              refl (rows_where-IsSerial s.serials.page others s.tables.pages serial))
      ]

  pub shift_chapter_pages-Step :
      (chapter : ℕ) (by : ℤ) (symbol : ℕ) (n : ℤ)
      → Ensures s (shift_chapter_pages chapter by symbol n s)
  unfolding shift_chapter_pages replay
  shift_chapter_pages-Step chapter by symbol n r h =
      let test = is_shifted chapter symbol n in
      let f = λ (p : ComicPage). record p { page = p.page +ℤ by } in
      let es = entries modify (returned test f s.tables.pages) in
      subst (Step s) (ok_inj h) (
        pages-Step s (without_posts es)
          (record s { tables = record s.tables { pages = update_where test f s.tables.pages } })
          (λ i. record {
            comics = s.tables.comics;
            chapters = s.tables.chapters;
            pages =
                (ap (λ r. replay r s.tables.pages) (entries_of-without_posts es)
                    ∙ replay-returned test f s.tables.pages serial.0)
                  i;
          })
          refl (update_where-IsSerial s.serials.page test f s.tables.pages serial))

  pub create_comic_page-Step : (p : ComicPage) → Ensures s (create_comic_page p s)
  unfolding create_comic_page replay apply
  create_comic_page-Step p r h = elim (Bool-cases (has_refs p s)) [
    | inl e ↦ subst (Step s) (ground (arith, e, h)) (
        page-Step s (p.post ∷ []) (record { action = create; id = s.serials.page; value = p })
          (record s {
            tables = record s.tables { pages = (s.serials.page, p) ∷ s.tables.pages };
            serials = record s.serials { page = s.serials.page + 1 };
          })
          refl refl (insert-IsSerial s.serials.page p s.tables.pages serial))
    | inr e ↦ absurd (ground (arith, e, h))
  ]

  pub edit_comic_page-Step : (id : ℕ) (p : ComicPage) → Ensures s (edit_comic_page id p s)
  unfolding edit_comic_page replay apply
  edit_comic_page-Step id p r h = elim (Option-cases (find_row id s.tables.pages)) [
    | inl e ↦ absurd (ground (arith, e, h))
    | inr (old, e) ↦ elim (Bool-cases (same_page p old)) [
      | inl k ↦ subst (Step s) (ground (arith, e, k, h)) nothing
      | inr k ↦ elim (Bool-cases (has_refs p s)) [
        | inl m ↦ subst (Step s) (ground (arith, e, k, m, h)) (
            page-Step s (p.post ∷ old.post ∷ []) (record { action = modify; id = id; value = p })
              (record s { tables = record s.tables { pages = set_row id p s.tables.pages } }) refl
              refl (set_row-IsSerial s.serials.page id p s.tables.pages serial))
        | inr m ↦ absurd (ground (arith, e, k, m, h))
      ]
    ]
  ]

  pub delete_comic_page-Step : (id : ℕ) → Ensures s (delete_comic_page id s)
  unfolding delete_comic_page replay apply
  delete_comic_page-Step id r h = elim (Option-cases (find_row id s.tables.pages)) [
    | inl e ↦ absurd (ground (arith, e, h))
    | inr (p, e) ↦ subst (Step s) (ground (arith, e, h)) (
        page-Step s (p.post ∷ []) (record { action = delete; id = id; value = p })
          (record s { tables = record s.tables { pages = delete_row id s.tables.pages } }) refl refl
          (delete_row-IsSerial s.serials.page id s.tables.pages serial))
  ]
