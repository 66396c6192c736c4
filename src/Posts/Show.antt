-- ===== src/Posts/Show.antt =====
-- `ClosestThumbnail` of DataManager/posts.go, with the thumbnails' ids for their cids.
use mathlib.Core.Path.{subst}
use pbooru.Prelude.{
  All, Bool-cases, List, [], ap, arith, if◌then◌else◌, inl, inr, ltb, refl, sym, ℕ, ◌<◌, ◌∙◌, ◌∷◌,
  ◌≡◌, ◌≤◌, ◌⊎◌,
}

pub record Thumb : Type 0 where
  pub cid : ℕ
  pub size : ℕ

-- the first loop, with `ret` and `s` as the thumbnail found so far
unfoldable pub largest : List Thumb → Thumb → Thumb
largest [] best = best
largest (k ∷ thumbs) best = largest thumbs (if ltb best.size k.size then k else best)

-- the second loop
unfoldable pub closest : ℕ → List Thumb → Thumb → Thumb
closest size [] best = best
closest size (k ∷ thumbs) best =
    closest size thumbs (if ltb k.size size then best else if ltb k.size best.size then k else best)

-- the empty text is 0
unfoldable pub closest_thumbnail : ℕ → List Thumb → Thumb
unfolding largest closest
closest_thumbnail size thumbs = closest size thumbs (largest thumbs (record { cid = 0; size = 0 }))

abbrev pub IsIn : Thumb → List Thumb → Type 0
IsIn t [] = ⊥
IsIn t (k ∷ thumbs) = (t ≡ k) ⊎ IsIn t thumbs

-- `r` is the best of the given one and the list, none of the list being larger
abbrev Largest : List Thumb → Thumb → Thumb → Type 0
Largest thumbs best r =
    ((r ≡ best) ⊎ IsIn r thumbs) × (best.size ≤ r.size) × All (λ k. k.size ≤ r.size) thumbs

Largest-cons :
    (k best next r : Thumb) (thumbs : List Thumb)
    → ((next ≡ k) ⊎ (next ≡ best))
    → best.size ≤ next.size
    → k.size ≤ next.size
    → Largest thumbs next r
    → Largest (k ∷ thumbs) best r
Largest-cons k best next r thumbs one lb lk (at, le, all) = (
  elim at [
    | inl s ↦ elim one [ inl e ↦ inr (inl (s ∙ e)) | inr e ↦ inl (s ∙ e) ]
    | inr m ↦ inr (inr m)
  ],
  omega arith,
  (omega arith, all),
)

largest-Largest : (thumbs : List Thumb) (best : Thumb) → Largest thumbs best (largest thumbs best)
unfolding largest
largest-Largest [] best = (inl refl, omega arith, tt)
largest-Largest (k ∷ thumbs) best =
    let next = if ltb best.size k.size then k else best in
    Largest-cons k best next _ thumbs one (ground arith) (ground arith)
      (largest-Largest thumbs next)
  where
    one :
        ((if ltb best.size k.size then k else best) ≡ k)
        ⊎ ((if ltb best.size k.size then k else best) ≡ best)
    one = elim (Bool-cases (ltb best.size k.size)) [
      | inl e ↦ inl (ground (arith, e))
      | inr e ↦ inr (ground (arith, e))
    ]

-- `r` is the smallest of the given one and those of the list that are not below the size
abbrev Closest : ℕ → List Thumb → Thumb → Thumb → Type 0
Closest size thumbs best r =
    ((r ≡ best) ⊎ IsIn r thumbs)
    × (r.size ≤ best.size)
    × (size ≤ best.size → size ≤ r.size)
    × (best.size < size → r ≡ best)
    × All (λ k. size ≤ k.size → r.size ≤ k.size) thumbs

abbrev next_best : ℕ → Thumb → Thumb → Thumb
next_best size k best = if ltb k.size size then best else if ltb k.size best.size then k else best

Closest-cons :
    (size : ℕ) (k best r : Thumb) (thumbs : List Thumb)
    → Closest size thumbs (next_best size k best) r
    → Closest size (k ∷ thumbs) best r
Closest-cons size k best r thumbs c = elim (Bool-cases (ltb k.size size)) [
  | inl e ↦
      let same : next_best size k best ≡ best = ground (arith, e) in
      let (at, le, above, kept, all) = subst (λ z. Closest size thumbs z r) same c in
      (
        elim at [ inl s ↦ inl s | inr m ↦ inr (inr m) ],
        le,
        above,
        kept,
        (λ h. absurd (ground (arith, e, h)), all),
      )
  | inr e ↦ elim (Bool-cases (ltb k.size best.size)) [
    | inl b ↦
        let same : next_best size k best ≡ k = ground (arith, e, b) in
        let (at, le, above, kept, all) = subst (λ z. Closest size thumbs z r) same c in
        (
          elim at [ inl s ↦ inr (inl s) | inr m ↦ inr (inr m) ],
          ground (arith, b, le),
          λ h. above (ground (arith, e)),
          λ h. absurd (ground (arith, e, b, h)),
          (λ h. le, all),
        )
    | inr b ↦
        let same : next_best size k best ≡ best = ground (arith, e, b) in
        let (at, le, above, kept, all) = subst (λ z. Closest size thumbs z r) same c in
        (
          elim at [ inl s ↦ inl s | inr m ↦ inr (inr m) ],
          le,
          above,
          kept,
          (λ h. ground (arith, e, b, le), all),
        )
  ]
]

closest-Closest :
    (size : ℕ) (thumbs : List Thumb) (best : Thumb)
    → Closest size thumbs best (closest size thumbs best)
unfolding closest
closest-Closest size [] best = (inl refl, omega arith, λ h. h, λ h. refl, tt)
closest-Closest size (k ∷ thumbs) best =
    Closest-cons size k best (closest size thumbs (next_best size k best)) thumbs
      (closest-Closest size thumbs (next_best size k best))

-- With thumbnails of a size above 0, the one that is chosen is one of them. It is the smallest of those
-- that are not below the asked size, if there are any, and else the largest of all.
pub closest_thumbnail_exact :
    (size : ℕ) (k : Thumb) (thumbs : List Thumb)
    → All (λ t. 0 < t.size) (k ∷ thumbs)
    → IsIn (closest_thumbnail size (k ∷ thumbs)) (k ∷ thumbs)
      × All
          (λ t.
            (size ≤ t.size
              → (size ≤ (closest_thumbnail size (k ∷ thumbs)).size)
                × ((closest_thumbnail size (k ∷ thumbs)).size ≤ t.size))
            × ((closest_thumbnail size (k ∷ thumbs)).size < size
                → t.size ≤ (closest_thumbnail size (k ∷ thumbs)).size))
          (k ∷ thumbs)
unfolding closest_thumbnail
closest_thumbnail_exact size k thumbs (pos, all) =
    let best = largest (k ∷ thumbs) (record { cid = 0; size = 0 }) in
    let r = closest size (k ∷ thumbs) best in
    let (at, low, top) = largest-Largest (k ∷ thumbs) (record { cid = 0; size = 0 }) in
    let (at', le, above, kept, smallest) = closest-Closest size (k ∷ thumbs) best in
    (
      elim at' [
        | inl e ↦ elim at [
          | inl none' ↦ absurd (
              let small : best.size ≡ 0 = ap (λ (t : Thumb). t.size) none' in
              let big : k.size ≤ best.size = top.0 in omega arith)
          | inr m ↦ subst (λ z. IsIn z (k ∷ thumbs)) (sym e) m
        ]
        | inr m ↦ m
      ],
      All-both (k ∷ thumbs) best r kept above top smallest,
    )
  where
    All-both :
        (xs : List Thumb) (best r : Thumb)
        → (best.size < size → r ≡ best)
        → (size ≤ best.size → size ≤ r.size)
        → All (λ t. t.size ≤ best.size) xs
        → All (λ t. size ≤ t.size → r.size ≤ t.size) xs
        → All
            (λ t.
              (size ≤ t.size → (size ≤ r.size) × (r.size ≤ t.size))
              × (r.size < size → t.size ≤ r.size))
            xs
    All-both [] best r kept above top small = tt
    All-both (x ∷ xs) best r kept above (t, top) (s, small) = (
      (λ h. (above (omega arith), s h), λ h. falls x best r kept above t h),
      All-both xs best r kept above top small,
    )
      where
        falls :
            (x best r : Thumb)
            → (best.size < size → r ≡ best)
            → (size ≤ best.size → size ≤ r.size)
            → x.size ≤ best.size
            → r.size < size
            → x.size ≤ r.size
        falls x best r kept above t h = elim (Bool-cases (ltb best.size size)) [
          | inl e ↦
              let same : r.size ≡ best.size =
                ap (λ (z : Thumb). z.size) (kept (ground (arith, e))) in
              omega arith
          | inr e ↦ absurd (let no' : size ≤ r.size = above (ground (arith, e)) in omega arith)
        ]
