-- ===== src/Alts/Groups.antt =====
-- The rows of `posts` under the updates of DataManager/alts.go: groups and their greatest posts.
use pbooru.Prelude.{
  ==_iff, ==_refl, Bool-cases, List, [], ap, arith, false, if◌then◌else◌, inl, inr, is_empty, ltb,
  mem, refl, true, ℕ, ◌&&◌, ◌==◌, ◌∷◌, ◌≡◌, ◌≤◌, ◌⊎◌, ok, sym,
}
use mathlib.Core.Path.{subst}
use pbooru.Database.{Table, has_row, snd_where}
use pbooru.Duplicates.Moves.{max_of, set_group}
use pbooru.Tags.Family.Ancestors.{mem-fst_where, fst_where_sound}
use pbooru.Alts.{members_with, update_group}

pub le-max_of :
    (x top : ℕ) (ids : List ℕ)
    → (x ≤ top → x ≤ max_of top ids) × (mem x ids ≡ true → x ≤ max_of top ids)
unfolding max_of
le-max_of x top [] = (λ le. le, λ m. cc)
le-max_of x top (id ∷ ids) =
    let (a, b) = le-max_of x (if ltb top id then id else top) ids in
    (λ le. a (ground (arith, le)), λ m. ground (arith, a, b, m, ==_iff x id))

pub max_of-mem :
    (top : ℕ) (ids : List ℕ) → (max_of top ids ≡ top) ⊎ (mem (max_of top ids) ids ≡ true)
unfolding max_of
max_of-mem top [] = inl refl
max_of-mem top (id ∷ ids) = elim (max_of-mem (if ltb top id then id else top) ids) [
  | inr m ↦ inr (ground (arith, m))
  | inl e ↦ elim (Bool-cases (ltb top id)) [
    | inl up ↦ inr (ground (arith, e, up, ==_iff (max_of (if ltb top id then id else top) ids) id))
    | inr down ↦ inl (ground (arith, e, down))
  ]
]

-- the greatest of some posts is one of them
pub max-mem : (ids : List ℕ) → is_empty ids ≡ false → mem (max_of 0 ids) ids ≡ true
max-mem [] e = cc
max-mem (id ∷ ids) e = elim (max_of-mem 0 (id ∷ ids)) [
  | inr m ↦ m
  | inl z ↦
      let low : id ≤ max_of 0 (id ∷ ids) =
        (le-max_of id 0 (id ∷ ids)).1 (ground (arith, ==_refl id)) in
      ground (arith, z, low, ==_iff (max_of 0 (id ∷ ids)) id)
]

pub has_row-set_group :
    (ids : List ℕ) (group i g : ℕ) (posts : Table)
    → has_row i g (set_group ids group posts) ≡ true
    → (old : ℕ) × (has_row i old posts ≡ true) × (g ≡ (if mem i ids then group else old))
unfolding set_group
has_row-set_group ids group i g [] h = cc
has_row-set_group ids group i g ((x, k) ∷ posts) h =
    elim (Bool-cases (i == x && g == (if mem x ids then group else k))) [
      | inl e ↦ (
        k,
        ground (arith, e, ==_refl k),
        ground (
          arith,
          e,
          ==_iff i x,
          ==_iff g (if mem x ids then group else k),
          λ (z : i ≡ x). ap (λ y. mem y ids) z,
        ),
      )
      | inr e ↦
          let (old, r, q) = has_row-set_group ids group i g posts (ground (arith, e, h)) in
          (old, ground (arith, r), q)
    ]

pub set_group-has_row :
    (ids : List ℕ) (group i old : ℕ) (posts : Table)
    → has_row i old posts ≡ true
    → has_row i (if mem i ids then group else old) (set_group ids group posts) ≡ true
unfolding set_group
set_group-has_row ids group i old [] h = cc
set_group-has_row ids group i old ((x, k) ∷ posts) h = elim (Bool-cases (i == x && old == k)) [
  | inl e ↦ ground (
    arith,
    e,
    ==_iff i x,
    ==_iff old k,
    λ (z : i ≡ x). ap (λ y. mem y ids) z,
    ==_refl (if mem i ids then group else old),
    λ (z : old ≡ k). z,
  )
  | inr e ↦ ground (arith, set_group-has_row ids group i old posts, h, e)
]

-- Every post is in a group whose number is a post of that group, the greatest.
abbrev pub IsTopped : Table → Type 0
IsTopped posts = (i g : ℕ) → has_row i g posts ≡ true → (i ≤ g) × (has_row g g posts ≡ true)

-- whole groups
abbrev pub IsWhole : List ℕ → Table → Type 0
IsWhole ids posts =
    (i j g : ℕ)
    → has_row i g posts ≡ true
    → has_row j g posts ≡ true
    → mem i ids ≡ true
    → mem j ids ≡ true

pub set_group-IsTopped :
    (ids : List ℕ) (top : ℕ) (posts : Table)
    → IsWhole ids posts
    → ((i : ℕ) → mem i ids ≡ true → i ≤ top)
    → mem top ids ≡ true
    → ((i : ℕ) → mem i ids ≡ true → (g : ℕ) × (has_row i g posts ≡ true))
    → IsTopped posts
    → IsTopped (set_group ids top posts)
set_group-IsTopped ids top posts whole under own rows topped i g h =
    let (old, r, e) = has_row-set_group ids top i g posts h in
    let (le, self) = topped i old r in
    elim (Bool-cases (mem i ids)) [
      | inl m ↦
          let (k, rk) = rows top own in
          let g_is : top ≡ g = ground (arith, e, m) in
          let at_top : has_row top top (set_group ids top posts) ≡ true =
            ground (arith, set_group-has_row ids top top k posts rk, own) in
          (
            ground (arith, e, m, under i),
            subst (λ z. has_row z z (set_group ids top posts) ≡ true) g_is at_top,
          )
      | inr m ↦
          let out : mem old ids ≡ false = ground (arith, whole old i old self r, m) in
          let g_is : old ≡ g = ground (arith, e, m) in
          let at_old : has_row old old (set_group ids top posts) ≡ true =
            ground (arith, set_group-has_row ids top old old posts self, out) in
          (
            ground (arith, e, m, le),
            subst (λ z. has_row z z (set_group ids top posts) ≡ true) g_is at_old,
          )
    ]

-- the primary key: a post has one group
abbrev pub IsKeyed : Table → Type 0
IsKeyed posts = (i g g' : ℕ) → has_row i g posts ≡ true → has_row i g' posts ≡ true → g ≡ g'

pub members_with-IsWhole :
    (ids : List ℕ) (posts : Table) → IsKeyed posts → IsWhole (members_with ids posts) posts
unfolding members_with
members_with-IsWhole ids posts keyed i j g ri rj m =
    let (g', r, k) = fst_where_sound i (snd_where ids posts) posts m in
    let same : g' ≡ g = keyed i g' g r ri in
    mem-fst_where j g (snd_where ids posts) posts rj
      (subst (λ z. mem z (snd_where ids posts) ≡ true) same k)

pub set_group-IsKeyed :
    (ids : List ℕ) (top : ℕ) (posts : Table) → IsKeyed posts → IsKeyed (set_group ids top posts)
set_group-IsKeyed ids top posts keyed i g g' h h' =
    let (a, r, e) = has_row-set_group ids top i g posts h in
    let (b, r', e') = has_row-set_group ids top i g' posts h' in
    ground (arith, e, e', keyed i a b r r')

pub update_group-ok :
    (top : ℕ) (ids : List ℕ) (posts posts' : Table)
    → update_group top ids posts ≡ ok posts'
    → (is_empty ids ≡ false) × (set_group ids top posts ≡ posts')
unfolding update_group
update_group-ok top [] posts posts' h = cc
update_group-ok top (id ∷ ids) posts posts' h = (refl, ground (arith, h))

pub row_of :
    (ids : List ℕ) (posts : Table) (i : ℕ)
    → mem i (members_with ids posts) ≡ true
    → (g : ℕ) × (has_row i g posts ≡ true)
unfolding members_with
row_of ids posts i m = let (g, r, k) = fst_where_sound i (snd_where ids posts) posts m in (g, r)

pub has_row-snd_where :
    (p g : ℕ) (ids : List ℕ) (posts : Table)
    → has_row p g posts ≡ true
    → mem p ids ≡ true
    → mem g (snd_where ids posts) ≡ true
unfolding snd_where
has_row-snd_where p g ids [] h m = cc
has_row-snd_where p g ids ((x, k) ∷ posts) h m =
    ground (
      arith,
      has_row-snd_where p g ids posts,
      h,
      m,
      ==_iff p x,
      λ (z : p ≡ x). ap (λ y. mem y ids) z,
    )

pub leader-member :
    (ids : List ℕ) (posts : Table) (p g : ℕ)
    → mem p ids ≡ true
    → has_row p g posts ≡ true
    → mem p (members_with ids posts) ≡ true
unfolding members_with
leader-member ids posts p g m r =
    mem-fst_where p g (snd_where ids posts) posts r (has_row-snd_where p g ids posts r m)

pub filled_members :
    (xs ys : List ℕ) → is_empty xs ≡ false → ((x : ℕ) → mem x xs ≡ mem x ys) → is_empty ys ≡ false
filled_members [] ys e same = cc
filled_members (x ∷ xs) [] e same = sym (ground (arith, same x, ==_refl x))
filled_members (x ∷ xs) (y ∷ ys) e same = refl
