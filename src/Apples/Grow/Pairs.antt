-- ===== src/Apples/Grow/Pairs.antt =====
-- The loop of `generateAppleTree` of DataManager/dupgen.go over the hashes of its query.
use pbooru.Prelude.{
  ==_iff, ==_refl, Bool, Bool-cases, List, [], ap, arith, false, inl, inr, keep, ltb, ok, refl,
  true, ℕ, ◌&&◌, ◌<◌, ◌==◌, ◌||◌, ◌∷◌, ◌≡◌,
}
use pbooru.Duplicates.Moves.{Tree, has_pair, legal, checked}
use pbooru.Apples.{Phs, apple_tree_threshold, distance}
use pbooru.Apples.Grow.{insert_pair, grow}

-- no row holds the post
abbrev pub IsNew : ℕ → List Tree → Type 0
IsNew i trees = (x : ℕ) → (has_pair i x trees ≡ false) × (has_pair x i trees ≡ false)

-- the primary key of phash
unfoldable pub has_phs : ℕ → List Phs → Bool
has_phs i [] = false
has_phs i (p ∷ phash) = i == p.postid || has_phs i phash

abbrev pub IsKeyed : List Phs → Type 0
IsKeyed [] = Unit {0}
IsKeyed (p ∷ phash) = (has_phs p.postid phash ≡ false) × IsKeyed phash

pub insert_pair-ok :
    (a b : ℕ) (trees : List Tree)
    → legal trees ≡ true
    → a < b
    → has_pair a b trees ≡ false
    → (trees' : List Tree) × (insert_pair a b trees ≡ ok trees')
      × (legal trees' ≡ true)
      × ((x y : ℕ) → has_pair x y trees' ≡ (x == a && y == b || has_pair x y trees))
unfolding insert_pair checked legal has_pair
insert_pair-ok a b trees l lt new' = (
  record { apple = a; pear = b; processed = false } ∷ trees,
  ground arith,
  ground arith,
  λ x y. refl,
)

has_phs-keep :
    (i : ℕ) (test : Phs → Bool) (phash : List Phs)
    → has_phs i phash ≡ false
    → has_phs i (keep test phash) ≡ false
unfolding has_phs
has_phs-keep i test [] h = refl
has_phs-keep i test (p ∷ phash) h = ground (arith, has_phs-keep i test phash)

pub keep-IsKeyed :
    (test : Phs → Bool) (phash : List Phs) → IsKeyed phash → IsKeyed (keep test phash)
keep-IsKeyed test [] k = tt
keep-IsKeyed test (p ∷ phash) (fresh, k) =
    ground (arith, keep-IsKeyed test phash k, has_phs-keep p.postid test phash fresh)

module _ (image_distance : ℕ → ℕ → ℕ) where
  abbrev pub near : Phs → Phs → Bool
  near ph h = apple_tree_threshold (distance image_distance ph h)

  -- a hash of the post `i` is near
  unfoldable pub any_near : Phs → ℕ → List Phs → Bool
  any_near ph i [] = false
  any_near ph i (h ∷ hashes) = i == h.postid && near ph h || any_near ph i hashes

  any_near-has_phs :
      (ph : Phs) (i : ℕ) (hashes : List Phs)
      → has_phs i hashes ≡ false
      → any_near ph i hashes ≡ false
  unfolding any_near has_phs
  any_near-has_phs ph i [] h = refl
  any_near-has_phs ph i (p ∷ hashes) h = ground (arith, any_near-has_phs ph i hashes, h)

  -- no pair of the post with one of the hashes is there
  abbrev pub Unpaired : ℕ → List Phs → List Tree → Type 0
  Unpaired i hashes trees =
      (x : ℕ)
      → has_phs x hashes ≡ true
      → (has_pair i x trees ≡ false) × (has_pair x i trees ≡ false)

  pub grow-ok :
      (ph : Phs) (hashes : List Phs) (trees : List Tree)
      → legal trees ≡ true
      → IsKeyed hashes
      → has_phs ph.postid hashes ≡ false
      → Unpaired ph.postid hashes trees
      → (trees' : List Tree) × (grow image_distance ph hashes trees ≡ ok trees')
        × (legal trees' ≡ true)
        × ((x y : ℕ)
            → has_pair x y trees' ≡ (
                ltb x y
                  && (x == ph.postid && any_near ph y hashes
                      || y == ph.postid && any_near ph x hashes)
                || has_pair x y trees))
  unfolding grow any_near has_phs
  grow-ok ph [] trees l k own u = (trees, refl, l, λ x y. ground arith)
  grow-ok ph (h ∷ hashes) trees l (fresh, k) own u =
      let out : has_phs ph.postid hashes ≡ false = ground (arith, own) in
      let differ : (ph.postid == h.postid) ≡ false = ground (arith, own) in
      let here = u h.postid (ground (arith, ==_refl h.postid)) in
      elim (Bool-cases (near ph h)) [
        | inr far ↦
            let (trees', e, l', q) =
              grow-ok ph hashes trees l k out (λ x m. u x (ground (arith, m))) in
            (trees', ground (arith, e, far), l', λ x y. ground (arith, q x y, far))
        | inl close ↦ elim (Bool-cases (ltb ph.postid h.postid)) [
          | inl lt ↦
              let (t1, e1, l1, q1) =
                insert_pair-ok ph.postid h.postid trees l (ground (arith, lt)) here.0 in
              let (trees', e, l', q) = grow-ok ph hashes t1 l1 k out (λ x m. (
                ground (
                  arith,
                  u x,
                  m,
                  q1 ph.postid x,
                  fresh,
                  ==_iff x h.postid,
                  λ (z : x ≡ h.postid). ap (λ w. has_phs w hashes) z,
                ),
                ground (arith, u x, m, q1 x ph.postid, differ),
              )) in
              (
                trees',
                ground (arith, e1, e, close, lt),
                l',
                λ x y. ground (
                  arith,
                  q x y,
                  q1 x y,
                  close,
                  lt,
                  ==_iff x ph.postid,
                  ==_iff y h.postid,
                  ==_iff x h.postid,
                  ==_iff y ph.postid,
                ),
              )
          | inr ge ↦
              let (t1, e1, l1, q1) =
                insert_pair-ok h.postid ph.postid trees l
                  (ground (arith, ge, differ, ==_iff ph.postid h.postid)) here.1 in
              let (trees', e, l', q) = grow-ok ph hashes t1 l1 k out (λ x m. (
                ground (arith, u x, m, q1 ph.postid x, differ),
                ground (
                  arith,
                  u x,
                  m,
                  q1 x ph.postid,
                  fresh,
                  ==_iff x h.postid,
                  λ (z : x ≡ h.postid). ap (λ w. has_phs w hashes) z,
                ),
              )) in
              (
                trees',
                ground (arith, e1, e, close, ge),
                l',
                λ x y. ground (
                  arith,
                  q x y,
                  q1 x y,
                  close,
                  ge,
                  differ,
                  ==_iff x ph.postid,
                  ==_iff y h.postid,
                  ==_iff x h.postid,
                  ==_iff y ph.postid,
                ),
              )
        ]
      ]
