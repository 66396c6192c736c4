-- ===== src/Comics/Shift.antt =====
-- What `ShiftChapterPages` of DataManager/chapter.go does to the order of pages.
use pbooru.Comics.Actions.{is_shifted, shift_chapter_pages}
use pbooru.Rows.{find_row, update_where}
use pbooru.Prelude.{
  ==_iff, Bool, Bool-cases, List, [], ap, arith, if◌then◌else◌, inl, inr, false, ok, some, sym,
  true, ℕ, ◌==◌, ◌∙◌, ◌∷◌, ◌≡◌,
}
use pbooru.Comics.{State, ComicPage, ComicLogger}
use pbooru.Ints.{ℤ, pos, ◌+ℤ◌, ◌<ℤ◌, +ℤ_parts}

-- the row of an id after a statement
find_row-update_where :
    {V : Type 0} (test : V → Bool) (f : V → V) (k : ℕ) (rows : List (ℕ × V)) (v : V)
    → find_row k rows ≡ some v
    → find_row k (update_where test f rows) ≡ some (if test v then f v else v)
unfolding find_row update_where
find_row-update_where test f k [] v h = cc
find_row-update_where test f k ((id, u) ∷ rows) v h = elim (Bool-cases (id == k)) [
  | inl e ↦
      let same : u ≡ v = ground (arith, e, h) in
      ground (arith, e, same, ap (λ z. if test z then f z else z) same)
  | inr e ↦ ground (arith, e, find_row-update_where test f k rows v (ground (arith, e, h)))
]

-- the number of a page after the shift
abbrev moved : ℕ → ℤ → ℕ → ℤ → ComicPage → ComicPage
moved chapter by symbol n p =
    if is_shifted chapter symbol n p then record p { page = p.page +ℤ by } else p

moved-up :
    (chapter k : ℕ) (n : ℤ) (p q : ComicPage)
    → p.chapter ≡ chapter
    → q.chapter ≡ chapter
    → (p.page <ℤ q.page) ≡ true
    → ((moved chapter (pos k) 1 n p).page <ℤ (moved chapter (pos k) 1 n q).page) ≡ true
unfolding is_shifted
moved-up chapter k n p q ep eq h = ground (
  arith,
  ==_iff p.chapter chapter,
  ==_iff q.chapter chapter,
  +ℤ_parts p.page (pos k),
  +ℤ_parts q.page (pos k),
)

moved-gap :
    (chapter k : ℕ) (n : ℤ) (p : ComicPage)
    → p.chapter ≡ chapter
    → (n <ℤ (moved chapter (pos k) 1 n p).page) ≡ true
    → ((n +ℤ pos k) <ℤ (moved chapter (pos k) 1 n p).page) ≡ true
unfolding is_shifted
moved-gap chapter k n p e h =
    ground (arith, ==_iff p.chapter chapter, +ℤ_parts p.page (pos k), +ℤ_parts n (pos k))

moved-own :
    (chapter : ℕ) (by n : ℤ) (p : ComicPage)
    → p.chapter ≡ chapter
    → moved chapter by 1 n p ≡ (if n <ℤ p.page then record p { page = p.page +ℤ by } else p)
unfolding is_shifted
moved-own chapter by n p e = ground (arith, ==_iff p.chapter chapter)

moved-other :
    (chapter : ℕ) (by : ℤ) (symbol : ℕ) (n : ℤ) (p : ComicPage)
    → (p.chapter == chapter) ≡ false
    → moved chapter by symbol n p ≡ p
unfolding is_shifted
moved-other chapter by symbol n p h = ground (arith, h)

-- Shifting the pages behind a number up moves every page of the chapter that is behind the number by the
-- shift, so that no page of the chapter is left on the numbers that it frees, and leaves its other
-- pages and those of the other chapters as they are. The order of two pages of the chapter is kept.
pub shift_chapter_pages-IsOrdered :
    (chapter k : ℕ) (n : ℤ) (s s' : State) (l : ComicLogger)
    → shift_chapter_pages chapter (pos k) 1 n s ≡ ok (s', l)
    → ((i : ℕ) (p : ComicPage)
        → find_row i s.tables.pages ≡ some p
        → p.chapter ≡ chapter
        → (p' : ComicPage) × (find_row i s'.tables.pages ≡ some p')
          × (p' ≡ (if n <ℤ p.page then record p { page = p.page +ℤ pos k } else p))
          × ((n <ℤ p'.page) ≡ true → ((n +ℤ pos k) <ℤ p'.page) ≡ true))
      × ((i : ℕ) (r : ComicPage)
          → find_row i s.tables.pages ≡ some r
          → (r.chapter == chapter) ≡ false
          → find_row i s'.tables.pages ≡ some r)
      × ((i j : ℕ) (p q : ComicPage)
          → find_row i s.tables.pages ≡ some p
          → find_row j s.tables.pages ≡ some q
          → p.chapter ≡ chapter
          → q.chapter ≡ chapter
          → (p.page <ℤ q.page) ≡ true
          → (p' : ComicPage) × (q' : ComicPage) × (find_row i s'.tables.pages ≡ some p')
            × (find_row j s'.tables.pages ≡ some q')
            × ((p'.page <ℤ q'.page) ≡ true))
unfolding shift_chapter_pages
shift_chapter_pages-IsOrdered chapter k n s s' l h =
    let test = is_shifted chapter 1 n in
    let f = λ (x : ComicPage). record x { page = x.page +ℤ pos k } in
    let rows : update_where test f s.tables.pages ≡ s'.tables.pages = ground (arith, h) in
    let now = λ (i : ℕ) (p : ComicPage) (e : find_row i s.tables.pages ≡ some p).
      ap (find_row i) (sym rows) ∙ find_row-update_where test f i s.tables.pages p e in
    (
      λ i p hp c. (
        moved chapter (pos k) 1 n p,
        now i p hp,
        moved-own chapter (pos k) n p c,
        moved-gap chapter k n p c,
      ),
      λ i r hr other. now i r hr ∙ ap some (moved-other chapter (pos k) 1 n r other),
      λ i j p q hp hq cp cq lt. (
        moved chapter (pos k) 1 n p,
        moved chapter (pos k) 1 n q,
        now i p hp,
        now j q hq,
        moved-up chapter k n p q cp cq lt,
      ),
    )
