-- ===== src/Posts/OrderBy.antt =====
-- ORDER BY of the database, which is no code of the repository: an interface with the documented meaning
-- of the clause. The rows are sorted by a test of which of two comes first, and stay the same rows;
-- which of two equal rows comes first is left open.
use pbooru.Posts.{Post}
use pbooru.Prelude.{
  All, All-map, Bool, Bool-cases, List, [], arith, false, if◌then◌else◌, inl, inr, keep, length,
  refl, true, ◌∷◌, ◌≡◌,
}

abbrev pub Test : Type 0
Test = Post → Post → Bool

-- each post comes before all that follow it
abbrev pub IsSorted : Test → List Post → Type 0
IsSorted before [] = Unit
IsSorted before (p ∷ posts) = All (λ q. before p q ≡ true) posts × IsSorted before posts

abbrev pub IsTransitive : Test → Type 0
IsTransitive before = (p q r : Post) → before p q ≡ true → before q r ≡ true → before p r ≡ true

abbrev pub IsTotal : Test → Type 0
IsTotal before = (p q : Post) → before p q ≡ false → before q p ≡ true

pub record OrderBy : Type 1 where
  pub sort : Test → List Post → List Post
  pub sort_sorted :
      (before : Test) (posts : List Post)
      → IsTransitive before
      → IsTotal before
      → IsSorted before (sort before posts)
  pub sort_count :
      (before : Test) (test : Post → Bool) (posts : List Post)
      → length (keep test (sort before posts)) ≡ length (keep test posts)
  pub sort_all :
      (before : Test) (P : Post → Type 0) (posts : List Post)
      → All P posts
      → All P (sort before posts)

-- The interface can be met: insertion.
abbrev pub place : Test → Post → List Post → List Post
place before p [] = p ∷ []
place before p (q ∷ posts) = if before p q then p ∷ (q ∷ posts) else q ∷ place before p posts

abbrev pub insertion : Test → List Post → List Post
insertion before [] = []
insertion before (p ∷ posts) = place before p (insertion before posts)

pub place-All :
    (before : Test) (P : Post → Type 0) (p : Post) (posts : List Post)
    → P p
    → All P posts
    → All P (place before p posts)
place-All before P p [] h a = (h, tt)
place-All before P p (q ∷ posts) h (k, a) = elim (Bool-cases (before p q)) [
  | inl e ↦ rw e (h, (k, a))
  | inr e ↦ rw e (k, place-All before P p posts h a)
]

pub insertion-All :
    (before : Test) (P : Post → Type 0) (posts : List Post)
    → All P posts
    → All P (insertion before posts)
insertion-All before P [] a = tt
insertion-All before P (p ∷ posts) (h, a) =
    place-All before P p (insertion before posts) h (insertion-All before P posts a)

place-IsSorted :
    (before : Test) (p : Post) (posts : List Post)
    → IsTransitive before
    → IsTotal before
    → IsSorted before posts
    → IsSorted before (place before p posts)
place-IsSorted before p [] trans total s = (tt, tt)
place-IsSorted before p (q ∷ posts) trans total (a, s) = elim (Bool-cases (before p q)) [
  | inl e ↦ rw e ((e, All-map _ _ posts (λ r k. trans p q r e k) a), (a, s))
  | inr e ↦ rw e (
    place-All before (λ r. before q r ≡ true) p posts (total p q e) a,
    place-IsSorted before p posts trans total s,
  )
]

pub insertion-IsSorted :
    (before : Test) (posts : List Post)
    → IsTransitive before
    → IsTotal before
    → IsSorted before (insertion before posts)
insertion-IsSorted before [] trans total = tt
insertion-IsSorted before (p ∷ posts) trans total =
    place-IsSorted before p (insertion before posts) trans total
      (insertion-IsSorted before posts trans total)

keep-place :
    (before : Test) (test : Post → Bool) (p : Post) (posts : List Post)
    → length (keep test (place before p posts)) ≡ length (keep test (p ∷ posts))
keep-place before test p [] = refl
keep-place before test p (q ∷ posts) = elim (Bool-cases (before p q)) [
  | inl e ↦ rw e refl
  | inr e ↦ rw e (ground (arith, keep-place before test p posts))
]

pub keep-insertion :
    (before : Test) (test : Post → Bool) (posts : List Post)
    → length (keep test (insertion before posts)) ≡ length (keep test posts)
keep-insertion before test [] = refl
keep-insertion before test (p ∷ posts) =
    ground
      (arith, keep-place before test p (insertion before posts), keep-insertion before test posts)

abbrev pub by_insertion : OrderBy
by_insertion = record {
  sort = insertion;
  sort_sorted = insertion-IsSorted;
  sort_count = keep-insertion;
  sort_all = insertion-All;
}
