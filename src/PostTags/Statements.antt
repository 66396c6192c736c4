-- ===== src/PostTags/Statements.antt =====
-- What the statements of DataManager/post_tags.go do to the rows and the counts.
use pbooru.Prelude.{
  ℕ, ◌+◌, ◌-◌, ◌≡◌, ap, Bool, true, false, ◌&&◌, ◌||◌, List, [], ◌∷◌, arith, mem, keep, ◌==◌,
  ==_iff, ==_refl, if◌then◌else◌, Bool-cases, inl, inr, ok, not, refl, ◌∙◌,
}
use mathlib.Core.Path.{subst}
use pbooru.Database.{Table, has_row, has_row-keep, fst, snd}
use pbooru.PostTags.{lower_count, raise_count, count_up, count_down, insert_tags, delete_tags}
use pbooru.Sets.{IsDistinct}
use pbooru.Tags.Store.{count_posts}

-- the unique key on both columns
abbrev pub IsUnique : Table → Type 0
IsUnique [] = Unit {0}
IsUnique ((a, b) ∷ rows) = (has_row a b rows ≡ false) × IsUnique rows

pub keep-IsUnique : (test : ℕ × ℕ → Bool) (rows : Table) → IsUnique rows → IsUnique (keep test rows)
keep-IsUnique test [] u = tt
keep-IsUnique test ((a, b) ∷ rows) (fresh, u) =
    ground (arith, keep-IsUnique test rows u, has_row-keep test a b rows, fresh)

pub insert_tags-IsUnique :
    {E : Type 0} (v : E) (p : ℕ) (tags : List ℕ) (rows rows' : Table)
    → insert_tags v p tags rows ≡ ok rows'
    → IsUnique rows
    → IsUnique rows'
unfolding insert_tags
insert_tags-IsUnique v p [] rows rows' h u = subst IsUnique (ground (arith, h)) u
insert_tags-IsUnique v p (t ∷ tags) rows rows' h u = elim (Bool-cases (has_row p t rows)) [
  | inl e ↦ absurd (ground (arith, e, h))
  | inr e ↦ insert_tags-IsUnique v p tags ((p, t) ∷ rows) rows' (ground (arith, e, h)) (e, u)
]

pub has_row-insert_tags :
    {E : Type 0} (v : E) (p : ℕ) (tags : List ℕ) (rows rows' : Table) (x t : ℕ)
    → insert_tags v p tags rows ≡ ok rows'
    → has_row x t rows' ≡ (x == p && mem t tags || has_row x t rows)
unfolding insert_tags
has_row-insert_tags v p [] rows rows' x t h = ground (arith, h)
has_row-insert_tags v p (k ∷ tags) rows rows' x t h =
    ground (arith, h, has_row-insert_tags v p tags ((p, k) ∷ rows) rows' x t)

pub has_row-lower_count :
    (k v id m : ℕ) (rows : Table)
    → has_row id m (lower_count k v rows) ≡ true
    → (n : ℕ) × (has_row id n rows ≡ true) × (m ≡ (if id == k then n - v else n))
unfolding lower_count
has_row-lower_count k v id m [] h = cc
has_row-lower_count k v id m ((x, n) ∷ rows) h =
    elim (Bool-cases (id == x && m == (if x == k then n - v else n))) [
      | inl e ↦ (
        n,
        ground (arith, e, ==_refl n),
        ground (
          arith,
          e,
          ==_iff id x,
          ==_iff m (if x == k then n - v else n),
          λ (q : id ≡ x). ap (λ z. z == k) q,
        ),
      )
      | inr e ↦
          let (n', r, q) = has_row-lower_count k v id m rows (ground (arith, e, h)) in
          (n', ground (arith, r), q)
    ]

pub has_row-delete_tags :
    (p : ℕ) (tags : List ℕ) (rows : Table) (x t : ℕ)
    → has_row x t (delete_tags p tags rows) ≡ (has_row x t rows && not (x == p && mem t tags))
unfolding delete_tags
has_row-delete_tags p [] rows x t = ground arith
has_row-delete_tags p (k ∷ tags) rows x t = ground (
  arith,
  has_row-delete_tags p tags (keep (λ row. not (fst row == p && snd row == k)) rows) x t,
  has_row-keep (λ row. not (fst row == p && snd row == k)) x t rows,
)

pub delete_tags-IsUnique :
    (p : ℕ) (tags : List ℕ) (rows : Table) → IsUnique rows → IsUnique (delete_tags p tags rows)
unfolding delete_tags
delete_tags-IsUnique p [] rows u = u
delete_tags-IsUnique p (k ∷ tags) rows u =
    delete_tags-IsUnique p tags _ (keep-IsUnique (λ row. not (fst row == p && snd row == k)) rows u)

-- deleting the one row of a post and a tag lowers the number of the tag's posts by one
count_posts-delete_tag :
    (p k id : ℕ) (rows : Table)
    → IsUnique rows
    → count_posts id (keep (λ row. not (fst row == p && snd row == k)) rows)
        + (if id == k && has_row p k rows then 1 else 0)
      ≡ count_posts id rows
unfolding count_posts
count_posts-delete_tag p k id [] u = ground arith
count_posts-delete_tag p k id ((x, t) ∷ rows) (fresh, u) = ground (
  arith,
  count_posts-delete_tag p k id rows u,
  fresh,
  ==_iff p x,
  ==_iff x p,
  ==_iff k t,
  ==_iff t k,
  ==_iff id k,
  ==_iff id t,
  λ (e : p ≡ x) (e' : k ≡ t). ap (λ z. has_row z k rows) e ∙ ap (λ z. has_row x z rows) e',
)

pub count_posts-delete_tags :
    (p : ℕ) (tags : List ℕ) (id : ℕ) (rows : Table)
    → IsUnique rows
    → count_posts id (delete_tags p tags rows) + (if mem id tags && has_row p id rows then 1 else 0)
      ≡ count_posts id rows
unfolding delete_tags
count_posts-delete_tags p [] id rows u = ground arith
count_posts-delete_tags p (k ∷ tags) id rows u =
    let rows' = keep (λ row. not (fst row == p && snd row == k)) rows in
    ground (
      arith,
      count_posts-delete_tags p tags id rows'
          (keep-IsUnique (λ row. not (fst row == p && snd row == k)) rows u),
      count_posts-delete_tag p k id rows u,
      has_row-keep (λ row. not (fst row == p && snd row == k)) p id rows,
      ==_refl p,
      ==_iff id k,
      λ (e : id ≡ k). ap (λ z. has_row p z rows) e,
    )

-- an inserted tag was not there
insert_tags_fresh :
    {E : Type 0} (v : E) (p : ℕ) (tags : List ℕ) (id : ℕ) (rows rows' : Table)
    → insert_tags v p tags rows ≡ ok rows'
    → has_row p id rows ≡ true
    → mem id tags ≡ false
unfolding insert_tags
insert_tags_fresh v p [] id rows rows' h has = refl
insert_tags_fresh v p (k ∷ tags) id rows rows' h has = ground (
  arith,
  h,
  has,
  insert_tags_fresh v p tags id ((p, k) ∷ rows) rows',
  ==_iff id k,
  λ (e : id ≡ k). ap (λ z. has_row p z rows) e,
)

pub count_posts-insert_tags :
    {E : Type 0} (v : E) (p : ℕ) (tags : List ℕ) (id : ℕ) (rows rows' : Table)
    → insert_tags v p tags rows ≡ ok rows'
    → count_posts id rows' ≡ count_posts id rows + (if mem id tags then 1 else 0)
unfolding insert_tags count_posts
count_posts-insert_tags v p [] id rows rows' h = ground (arith, h)
count_posts-insert_tags v p (k ∷ tags) id rows rows' h = ground (
  arith,
  h,
  count_posts-insert_tags v p tags id ((p, k) ∷ rows) rows',
  insert_tags_fresh v p tags id ((p, k) ∷ rows) rows',
  ==_refl p,
  ==_iff id k,
)

-- tags that are distinct and not the post's are inserted without an error
pub insert_tags_total :
    {E : Type 0} (v : E) (p : ℕ) (tags : List ℕ) (rows : Table)
    → IsDistinct tags
    → ((t : ℕ) → mem t tags ≡ true → has_row p t rows ≡ false)
    → (rows' : Table) × (insert_tags v p tags rows ≡ ok rows')
unfolding insert_tags
insert_tags_total v p [] rows d out = (rows, refl)
insert_tags_total v p (k ∷ tags) rows (fresh, d) out =
    let (rows', e) =
      insert_tags_total v p tags ((p, k) ∷ rows) d (λ t m.
        ground (arith, m, fresh, out t, ==_iff t k, λ (q : t ≡ k). ap (λ z. mem z tags) q)) in
    (rows', ground (arith, e, out k, ==_refl k))

has_row-raise_count :
    (k id m : ℕ) (rows : Table)
    → has_row id m (raise_count k rows) ≡ true
    → (n : ℕ) × (has_row id n rows ≡ true) × (m ≡ (if id == k then n + 1 else n))
unfolding raise_count
has_row-raise_count k id m [] h = cc
has_row-raise_count k id m ((x, n) ∷ rows) h =
    elim (Bool-cases (id == x && m == (if x == k then n + 1 else n))) [
      | inl e ↦ (
        n,
        ground (arith, e, ==_refl n),
        ground (
          arith,
          e,
          ==_iff id x,
          ==_iff m (if x == k then n + 1 else n),
          λ (q : id ≡ x). ap (λ z. z == k) q,
        ),
      )
      | inr e ↦
          let (n', r, q) = has_row-raise_count k id m rows (ground (arith, e, h)) in
          (n', ground (arith, r), q)
    ]

pub has_row-count_up :
    (tags : List ℕ) (id m : ℕ) (rows : Table)
    → IsDistinct tags
    → has_row id m (count_up tags rows) ≡ true
    → (n : ℕ) × (has_row id n rows ≡ true) × (m ≡ n + (if mem id tags then 1 else 0))
unfolding count_up
has_row-count_up [] id m rows d h = (m, h, ground arith)
has_row-count_up (k ∷ tags) id m rows (fresh, d) h =
    let (n1, r1, e1) = has_row-count_up tags id m (raise_count k rows) d h in
    let (n, r, e) = has_row-raise_count k id n1 rows r1 in
    (n, r, ground (arith, e1, e, fresh, ==_iff id k, λ (q : id ≡ k). ap (λ z. mem z tags) q))

pub has_row-count_down :
    (tags : List ℕ) (id m : ℕ) (rows : Table)
    → IsDistinct tags
    → has_row id m (count_down tags rows) ≡ true
    → (n : ℕ) × (has_row id n rows ≡ true) × (m ≡ n - (if mem id tags then 1 else 0))
unfolding count_down
has_row-count_down [] id m rows d h = (m, h, ground arith)
has_row-count_down (k ∷ tags) id m rows (fresh, d) h =
    let (n1, r1, e1) = has_row-count_down tags id m (lower_count k 1 rows) d h in
    let (n, r, e) = has_row-lower_count k 1 id n1 rows r1 in
    (n, r, ground (arith, e1, e, fresh, ==_iff id k, λ (q : id ≡ k). ap (λ z. mem z tags) q))
