-- ===== src/Duplicates/Conflicts.antt =====
-- What `upgradeDupe` and `conflicts` of DataManager/duplicates.go let through.
use pbooru.Prelude.{
  ℕ, ◌≡◌, refl, sym, ◌∙◌, ap, true, false, not, ◌&&◌, List, [], ◌∷◌, ◌++◌, ◌⊎◌, none, some, arith,
  mem, keep, mem-keep, ◌==◌, ==_iff, ==_refl, if◌then◌else◌, is_empty, Bool-cases, Option-cases,
  inl, inr, ok,
}
use pbooru.Database.{Table, snd, has_row, has_row-keep}
use pbooru.Duplicates.{
  Dupe, superior_of, is_of, scan, get_dupe_from_post, upgrade_dupe, remove_inferior, check_rows,
  conflicts, has_dup,
}

-- no post stands on both sides
abbrev pub IsLevel : Table → Type 0
IsLevel rows = (s x y : ℕ) → has_row s x rows ≡ true → has_row y s rows ≡ false

superior_of-none : (p y : ℕ) (rows : Table) → superior_of p rows ≡ none → has_row y p rows ≡ false
unfolding superior_of
superior_of-none p y [] h = refl
superior_of-none p y ((s, i) ∷ rows) h =
    ground (arith, superior_of-none p y rows, ==_iff i p, ==_iff p i)

superior_of-some : (p s : ℕ) (rows : Table) → superior_of p rows ≡ some s → has_row s p rows ≡ true
unfolding superior_of
superior_of-some p s [] h = cc
superior_of-some p s ((t, i) ∷ rows) h =
    ground (arith, superior_of-some p s rows, ==_iff i p, ==_iff p i, ==_iff s t)

scan-post :
    (d : Dupe) (rows : Table) (s : ℕ)
    → ((y i : ℕ) → has_row y i rows ≡ true → y ≡ s)
    → (d.post ≡ s) ⊎ ((y : ℕ) × (i : ℕ) × (has_row y i rows ≡ true))
    → (scan d rows).post ≡ s
unfolding scan
scan-post d [] s same (inl e) = e
scan-post d [] s same (inr (y, i, h)) = cc
scan-post d ((a, i) ∷ rows) s same start =
    let here : a ≡ s = same a i (ground (arith, ==_refl a, ==_refl i)) in
    scan-post
      (record { post = (if d.post == a then d.post else a); inferior = d.inferior ++ i ∷ [] }) rows
      s (λ y j h. same y j (ground (arith, h))) (inl (ground (arith, here, ==_iff d.post a)))

-- with no post on both sides, the upgraded post is no duplicate
pub upgrade_dupe-post :
    (rows : Table) (d : Dupe) (y : ℕ)
    → IsLevel rows
    → has_row y (upgrade_dupe rows d).post rows ≡ false
unfolding upgrade_dupe get_dupe_from_post
upgrade_dupe-post rows d y level = elim (Option-cases (superior_of d.post rows)) [
  | inl top ↦
      let e =
        scan-post (record { post = d.post; inferior = [] })
          (keep (is_of d.post (superior_of d.post rows)) rows) d.post
          (λ s i h.
            unfold is_of in
            ground (
              arith,
              top,
              h,
              has_row-keep (is_of d.post (superior_of d.post rows)) s i rows,
              ==_iff s d.post,
            ))
          (inl refl) in
      ap (λ p. has_row y p rows) e ∙ superior_of-none d.post y rows top
  | inr (s, sup) ↦
      let above : has_row s d.post rows ≡ true = superior_of-some d.post s rows sup in
      let e =
        scan-post (record { post = d.post; inferior = [] })
          (keep (is_of d.post (superior_of d.post rows)) rows) s
          (λ t i h.
            unfold is_of in
            ground (
              arith,
              sup,
              h,
              has_row-keep (is_of d.post (superior_of d.post rows)) t i rows,
              level t i s,
              above,
              ==_iff t d.post,
              ==_iff t s,
              λ (q : t ≡ d.post). ap (λ z. has_row s z rows) q,
            ))
          (inr (
            s,
            d.post,
            unfold is_of in
                ground (
                  arith,
                  sup,
                  above,
                  has_row-keep (is_of d.post (superior_of d.post rows)) s d.post rows,
                  ==_refl s,
                ),
          )) in
      ap (λ p. has_row y p rows) e ∙ level s d.post y above
]

-- the inferiors that are left once no conflict was found
check_rows-none :
    (p i : ℕ) (inferior : List ℕ) (rows : Table)
    → (check_rows p inferior rows).1 ≡ []
    → (mem i (check_rows p inferior rows).0 ≡ (mem i inferior && not (has_dup i rows)))
      × ((s : ℕ) → has_row s i rows ≡ true → s ≡ p)
unfolding check_rows remove_inferior has_dup
check_rows-none p i inferior [] h = (ground arith, λ s r. cc)
check_rows-none p i inferior ((sup, inf) ∷ rows) h = elim (Bool-cases (sup == p)) [
  | inl own ↦
      let (m, all) =
        check_rows-none p i (remove_inferior inf inferior) rows (ground (arith, own)) in
      (
        ground (arith, own, m, mem-keep (λ j. not (j == inf)) i inferior, ==_iff i inf),
        λ s r. ground (arith, own, all s, ==_iff s sup, ==_iff sup p),
      )
  | inr other ↦ absurd (ground (arith, other))
]

has_dup-keep :
    (i : ℕ) (inferior : List ℕ) (rows : Table)
    → has_dup i (keep (λ row. mem (snd row) inferior) rows) ≡ (has_dup i rows && mem i inferior)
unfolding has_dup
has_dup-keep i inferior [] = refl
has_dup-keep i inferior ((s, j) ∷ rows) =
    ground
      (arith, has_dup-keep i inferior rows, ==_iff i j, λ (e : i ≡ j). ap (λ z. mem z inferior) e)

is_empty-nil : (xs : List ℕ) → is_empty xs ≡ true → xs ≡ []
is_empty-nil [] h = refl
is_empty-nil (x ∷ xs) h = cc

-- What `conflicts` lets through is checked: the post is that of the dupe, the inferiors are those
-- of the dupe that are neither the post nor a duplicate, and at least one is left; and a
-- duplicate among the dupe's inferiors was the post's.
pub conflicts-ok :
    (rows : Table) (d d' : Dupe)
    → conflicts rows d ≡ ok d'
    → (d'.post ≡ d.post)
      × (is_empty d'.inferior ≡ false)
      × ((i : ℕ)
          → mem i d'.inferior ≡ (mem i d.inferior && not (has_dup i rows) && not (i == d.post)))
      × ((s i : ℕ) → mem i d.inferior ≡ true → has_row s i rows ≡ true → s ≡ d.post)
unfolding conflicts
conflicts-ok rows d d' h =
    let found = keep (λ row. mem (snd row) d.inferior) rows in
    let checked = check_rows d.post d.inferior found in
    elim (Bool-cases (is_empty checked.1)) [
      | inr some_left ↦ absurd (ground (arith, some_left, h))
      | inl none_left ↦ elim (Bool-cases (is_empty (keep (λ i. not (i == d.post)) checked.0))) [
        | inl gone ↦ absurd (ground (arith, none_left, gone, h))
        | inr stay ↦
            let e : (record d { inferior = keep (λ i. not (i == d.post)) checked.0 }) ≡ d' =
              ground (arith, none_left, stay, h) in
            let inf = ap (λ (z : Dupe). z.inferior) e in
            let none' = is_empty-nil checked.1 none_left in
            (
              sym (ap (λ (z : Dupe). z.post) e),
              ap is_empty (sym inf) ∙ stay,
              λ i.
                  ap (mem i) (sym inf)
                  ∙ ground (
                    arith,
                    mem-keep (λ j. not (j == d.post)) i checked.0,
                    (check_rows-none d.post i d.inferior found none').0,
                    has_dup-keep i d.inferior rows,
                  ),
              λ s i m r.
                  (check_rows-none d.post i d.inferior found none').1 s
                    (ground (arith, m, r, has_row-keep (λ row. mem (snd row) d.inferior) s i rows)),
            )
      ]
    ]
