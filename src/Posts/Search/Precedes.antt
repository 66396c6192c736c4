-- ===== src/Posts/Search/Precedes.antt =====
-- The orders of a search (DataManager/posts.go) as relations of posts.
use pbooru.Posts.OrderBy.{IsSorted}
use pbooru.Posts.Search.{before}
use pbooru.Prelude.{
  All, All-map, Bool-cases, List, [], arith, false, inl, inr, refl, true, ◌∷◌, ◌≡◌, ==_iff, ltb,
  ◌<◌, ◌≤◌, ◌⊎◌,
}
use pbooru.Posts.{Post, Order, asc, desc, score, random}

pub before_trans :
    (o : Order) (p q r : Post) → before o p q ≡ true → before o q r ≡ true → before o p r ≡ true
unfolding before
before_trans asc p q r h k = ground (arith, h, k)
before_trans desc p q r h k = ground (arith, h, k)
before_trans score p q r h k = ground (arith, h, k)
before_trans random p q r h k = refl

pub before_total : (o : Order) (p q : Post) → before o p q ≡ false → before o q p ≡ true
unfolding before
before_total asc p q h = ground (arith, h)
before_total desc p q h = ground (arith, h)
before_total score p q h = ground (arith, h)
before_total random p q h = refl

-- The order that a search asks for: by id up or down, or the greater score first, and of posts with the
-- same score the greater id.
abbrev pub Precedes : Order → Post → Post → Type 0
Precedes asc p q = p.id ≤ q.id
Precedes desc p q = q.id ≤ p.id
Precedes score p q = (q.score < p.score) ⊎ (p.score ≡ q.score) × (q.id ≤ p.id)
Precedes random p q = Unit {0}

-- each post precedes all that follow it
abbrev pub IsOrdered : Order → List Post → Type 0
IsOrdered o [] = Unit
IsOrdered o (p ∷ posts) = All (λ q. Precedes o p q) posts × IsOrdered o posts

pub before-Precedes : (o : Order) (p q : Post) → before o p q ≡ true → Precedes o p q
unfolding before
before-Precedes asc p q e = ground (arith, e)
before-Precedes desc p q e = ground (arith, e)
before-Precedes score p q e = elim (Bool-cases (ltb q.score p.score)) [
  | inl up ↦ inl (ground (arith, up))
  | inr same ↦ inr (ground (arith, e, same, ==_iff p.score q.score), ground (arith, e, same))
]
before-Precedes random p q e = tt

pub IsSorted-IsOrdered :
    (o : Order) (posts : List Post) → IsSorted (before o) posts → IsOrdered o posts
IsSorted-IsOrdered o [] s = tt
IsSorted-IsOrdered o (p ∷ posts) (a, s) =
    (All-map _ _ posts (λ q e. before-Precedes o p q e) a, IsSorted-IsOrdered o posts s)
