-- ===== src/Duplicates/Flat.antt =====
-- The table `duplicates` after `updateAndInsert` of DataManager/duplicates.go.
use pbooru.Prelude.{
  ℕ, ◌≡◌, refl, ◌∙◌, ap, true, false, ◌&&◌, ◌||◌, List, [], ◌∷◌, ◌⊎◌, some, arith, mem, ◌==◌,
  ==_iff, ==_refl, if◌then◌else◌, Bool-cases, inl, inr, ok, >>=-eq-ok,
}
use pbooru.Database.{Table, has_row}
use mathlib.Core.Option
use pbooru.Duplicates.{
  Dupe, DuplicatesLog, superior_of, upgrade_dupe, conflicts, repoint, insert_dupes,
  update_and_insert, assign,
}
use pbooru.Duplicates.Conflicts.{IsLevel, upgrade_dupe-post, conflicts-ok}

superior_of-repoint :
    (inferior : List ℕ) (p x : ℕ) (rows : Table)
    → superior_of x (repoint inferior p rows)
      ≡ Option.map (λ s. if mem s inferior then p else s) (superior_of x rows)
unfolding superior_of repoint
superior_of-repoint inferior p x [] = refl
superior_of-repoint inferior p x ((s, i) ∷ rows) = elim (Bool-cases (i == x)) [
  | inl e ↦ ground (arith, e)
  | inr e ↦ ground (arith, e, superior_of-repoint inferior p x rows)
]

has_row-repoint :
    (inferior : List ℕ) (p s i : ℕ) (rows : Table)
    → has_row s i (repoint inferior p rows) ≡ true
    → (has_row s i rows ≡ true) × (mem s inferior ≡ false)
      ⊎ (s ≡ p) × ((t : ℕ) × (mem t inferior ≡ true) × (has_row t i rows ≡ true))
unfolding repoint
has_row-repoint inferior p s i [] h = cc
has_row-repoint inferior p s i ((t, j) ∷ rows) h =
    elim (Bool-cases (s == (if mem t inferior then p else t) && i == j)) [
      | inl here ↦ elim (Bool-cases (mem t inferior)) [
        | inl m ↦
            inr (ground (arith, here, m, ==_iff s p), (t, m, ground (arith, here, m, ==_refl t)))
        | inr m ↦ inl (
          ground (arith, here, m),
          ground (arith, here, m, ==_iff s t, λ (e : s ≡ t). ap (λ z. mem z inferior) e),
        )
      ]
      | inr later ↦ elim (has_row-repoint inferior p s i rows (ground (arith, h, later))) [
        | inl (r, m) ↦ inl (ground (arith, r), m)
        | inr (e, (u, m, r)) ↦ inr (e, (u, m, ground (arith, r)))
      ]
    ]

has_row-insert_dupes :
    (p : ℕ) (inferior : List ℕ) (rows rows' : Table) (s i : ℕ)
    → insert_dupes p inferior rows ≡ ok rows'
    → has_row s i rows' ≡ (s == p && mem i inferior || has_row s i rows)
unfolding insert_dupes
has_row-insert_dupes p [] rows rows' s i h = ground (arith, h)
has_row-insert_dupes p (j ∷ inferior) rows rows' s i h =
    ground (arith, h, has_row-insert_dupes p inferior ((p, j) ∷ rows) rows' s i)

superior_of-insert_dupes :
    (p : ℕ) (inferior : List ℕ) (rows rows' : Table) (x : ℕ)
    → insert_dupes p inferior rows ≡ ok rows'
    → superior_of x rows' ≡ (if mem x inferior then some p else superior_of x rows)
unfolding insert_dupes superior_of
superior_of-insert_dupes p [] rows rows' x h = ground (arith, h)
superior_of-insert_dupes p (j ∷ inferior) rows rows' x h =
    ground (
      arith,
      h,
      superior_of-insert_dupes p inferior ((p, j) ∷ rows) rows' x,
      ==_iff x j,
      ==_iff j x,
    )

record IsAssigned (rows : Table) (d0 d : Dupe) (rows' : Table) : Type 0 where
  checked : conflicts rows (upgrade_dupe rows d0) ≡ ok d
  inserted : insert_dupes d.post d.inferior (repoint d.inferior d.post rows) ≡ ok rows'

assign-IsAssigned :
    (rows rows' : Table) (d0 d : Dupe) (log : DuplicatesLog)
    → assign rows d0 ≡ ok (d, rows', log)
    → IsAssigned rows d0 d rows'
unfolding assign update_and_insert
assign-IsAssigned rows rows' d0 d log h =
    let (d1, c, h1) = >>=-eq-ok (conflicts rows (upgrade_dupe rows d0)) _ h in
    let ((rows1, log1), u, h2) = >>=-eq-ok (update_and_insert rows d1) _ h1 in
    let (rows2, i, h3) =
      >>=-eq-ok (insert_dupes d1.post d1.inferior (repoint d1.inferior d1.post rows)) _ u in
    record { checked = ground (arith, c, h2); inserted = ground (arith, i, h3, h2) }

module _ (rows rows' : Table) (d0 d : Dupe) (log : DuplicatesLog)
    (done : assign rows d0 ≡ ok (d, rows', log)) where
  abbrev run : IsAssigned rows d0 d rows'
  run = assign-IsAssigned rows rows' d0 d log done

  -- After duplicates were assigned, each of the inferiors has the post as its superior, and so has
  -- every post whose superior was one of them; all others have the superior they had.
  pub assign-superior_of :
      (x : ℕ)
      → superior_of x rows' ≡ (
          if mem x d.inferior
          then some d.post
          else Option.map (λ s. if mem s d.inferior then d.post else s) (superior_of x rows))
  assign-superior_of x =
      superior_of-insert_dupes d.post d.inferior (repoint d.inferior d.post rows) rows' x
        run.inserted
      ∙ ap (λ o. if mem x d.inferior then some d.post else o)
          (superior_of-repoint d.inferior d.post x rows)

  -- Assigning duplicates keeps the table at one level: no post is a duplicate of one post and the
  -- superior of another.
  pub assign-IsLevel : IsLevel rows → IsLevel rows'
  assign-IsLevel level s x y r =
      let p : ℕ = d.post in
      let (own, _, left, _) = conflicts-ok rows (upgrade_dupe rows d0) d run.checked in
      let top : (z : ℕ) → has_row z p rows ≡ false =
        λ z. ap (λ q. has_row z q rows) own ∙ upgrade_dupe-post rows d0 z level in
      let before = has_row-insert_dupes p d.inferior (repoint d.inferior p rows) rows' in
      let lifted : (q : ℕ)
          → ((z : ℕ) → has_row z q rows ≡ false)
          → has_row y q (repoint d.inferior p rows) ≡ false =
        λ q none_above. elim (Bool-cases (has_row y q (repoint d.inferior p rows))) [
          | inr e ↦ e
          | inl e ↦ elim (has_row-repoint d.inferior p y q rows e) [
            | inl (r', _) ↦ absurd (ground (arith, r', none_above y))
            | inr (_, (t, _, r')) ↦ absurd (ground (arith, r', none_above t))
          ]
        ] in
      let at_top : s ≡ p → has_row y s rows' ≡ false = λ e.
        ap (λ q. has_row y q rows') e
        ∙ ground (
          arith,
          before y p run.inserted,
          lifted p top,
          left p,
          ==_iff p (upgrade_dupe rows d0).post,
          own,
        ) in
      elim (Bool-cases (s == p)) [
        | inl e ↦ at_top (ground (arith, e, ==_iff s p))
        | inr other ↦
            elim (has_row-repoint d.inferior p s x rows
              (ground (arith, other, r, before s x run.inserted))) [
                | inr (e, _) ↦ at_top e
                | inl (r', m) ↦
                    ground (arith, before y s run.inserted, m, lifted s (λ z. level s x z r'))
              ]
      ]
