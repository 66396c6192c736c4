-- ===== src/Apples/Grow/Batches/Planted.antt =====
-- The pairs of one batch of `GeneratePearsTx` of DataManager/dupgen.go.
use pbooru.Prelude.{
  ==_iff, ==_refl, Bool, Bool-cases, List, [], ap, arith, false, inl, inr, ltb, not, ok, refl, true,
  ℕ, ◌&&◌, ◌==◌, ◌||◌, ◌∷◌, ◌≡◌, ◌∙◌,
}
use pbooru.Database.{Table}
use pbooru.Duplicates.{has_dup}
use pbooru.Duplicates.Moves.{Tree, has_pair, legal}
use pbooru.Apples.{Phs}
use pbooru.Apples.Grow.Pairs.{has_phs, IsKeyed, keep-IsKeyed, near, any_near, insert_pair-ok}
use pbooru.Apples.Grow.Similar.{any_near-keep, is_similar}
use pbooru.Apples.Grow.Batches.{pears_of, plant, plant_all}

pears_of-IsKeyed :
    (p : Phs) (duplicates : Table) (read : List Tree) (phash : List Phs)
    → IsKeyed phash
    → IsKeyed (pears_of p duplicates read phash)
unfolding pears_of
pears_of-IsKeyed p duplicates read phash k = keep-IsKeyed _ phash k

module _ (image_distance : ℕ → ℕ → ℕ) where
  plant-ok :
      (apple : Phs) (pears : List Phs) (trees : List Tree)
      → legal trees ≡ true
      → IsKeyed pears
      → ((y : ℕ)
          → has_phs y pears ≡ true
          → (ltb apple.postid y ≡ true) × (has_pair apple.postid y trees ≡ false))
      → (trees' : List Tree) × (plant image_distance apple pears trees ≡ ok trees')
        × (legal trees' ≡ true)
        × ((x y : ℕ)
            → has_pair x y trees'
              ≡ (x == apple.postid && any_near image_distance apple y pears || has_pair x y trees))
  unfolding plant any_near has_phs
  plant-ok apple [] trees l k free = (trees, refl, l, λ x y. ground arith)
  plant-ok apple (h ∷ pears) trees l (fresh, k) free =
      let here = free h.postid (ground (arith, ==_refl h.postid)) in
      elim (Bool-cases (near image_distance apple h)) [
        | inr far ↦
            let (trees', e, l', q) =
              plant-ok apple pears trees l k (λ y m. free y (ground (arith, m))) in
            (trees', ground (arith, e, far), l', λ x y. ground (arith, q x y, far))
        | inl close ↦
            let (t1, e1, l1, q1) =
              insert_pair-ok apple.postid h.postid trees l (ground (arith, here.0)) here.1 in
            let (trees', e, l', q) = plant-ok apple pears t1 l1 k (λ y m. (
              ground (arith, free y, m),
              ground (
                arith,
                free y,
                m,
                q1 apple.postid y,
                fresh,
                ==_iff y h.postid,
                λ (z : y ≡ h.postid). ap (λ w. has_phs w pears) z,
              ),
            )) in
            (trees', ground (arith, e1, e, close), l', λ x y. ground (arith, q x y, q1 x y, close))
      ]

  -- a similar hash of `y` in the table, for the post `x`
  unfoldable pub similar_posts : ℕ → ℕ → List Phs → List Phs → Bool
  unfolding is_similar
  similar_posts x y phash [] = false
  similar_posts x y phash (p ∷ apples) =
      x == p.postid && is_similar image_distance p y phash || similar_posts x y phash apples

  any_near-pears_of :
      (p : Phs) (duplicates : Table) (read : List Tree) (y : ℕ) (phash : List Phs)
      → any_near image_distance p y (pears_of p duplicates read phash) ≡ (
          ltb p.postid y
          && not (has_pair p.postid y read)
          && not (has_dup y duplicates)
          && is_similar image_distance p y phash)
  unfolding pears_of
  any_near-pears_of p duplicates read y phash =
      any_near-keep image_distance p y
        (ltb p.postid y && not (has_pair p.postid y read) && not (has_dup y duplicates)) _ phash
        (λ h e. ground (
          arith,
          ap (ltb p.postid) e,
          ap (λ z. has_pair p.postid z read) e,
          ap (λ z. has_dup z duplicates) e,
        ))
      ∙ ground arith

  has_phs-pears_of :
      (p : Phs) (duplicates : Table) (read : List Tree) (y : ℕ) (phash : List Phs)
      → has_phs y (pears_of p duplicates read phash) ≡ true
      → (ltb p.postid y ≡ true) × (has_pair p.postid y read ≡ false)
  unfolding pears_of has_phs
  has_phs-pears_of p duplicates read y [] h = cc
  has_phs-pears_of p duplicates read y (x ∷ phash) h =
      let rest = has_phs-pears_of p duplicates read y phash in
      (
        ground
            (arith, rest, h, ==_iff y x.postid, λ (e : y ≡ x.postid). ap (λ z. ltb p.postid z) e),
        ground (
          arith,
          rest,
          h,
          ==_iff y x.postid,
          λ (e : y ≡ x.postid). ap (λ z. has_pair p.postid z read) e,
        ),
      )

  -- the pairs that a batch wants
  abbrev pub wanted : Table → List Phs → List Phs → ℕ → ℕ → Bool
  wanted duplicates phash apples x y =
      ltb x y && not (has_dup y duplicates) && similar_posts x y phash apples

  pub plant_all-ok :
      (duplicates : Table) (read : List Tree) (phash apples : List Phs) (trees : List Tree)
      → legal trees ≡ true
      → IsKeyed phash
      → IsKeyed apples
      → ((x y : ℕ) → has_phs x apples ≡ true → has_pair x y trees ≡ has_pair x y read)
      → (trees' : List Tree) × (plant_all image_distance duplicates read phash apples trees
          ≡ ok trees')
        × (legal trees' ≡ true)
        × ((x y : ℕ)
            → has_pair x y trees' ≡ (wanted duplicates phash apples x y || has_pair x y trees))
  unfolding plant_all similar_posts has_phs
  plant_all-ok duplicates read phash [] trees l kp k same = (trees, refl, l, λ x y. ground arith)
  plant_all-ok duplicates read phash (p ∷ apples) trees l kp (fresh, k) same =
      let pears = pears_of p duplicates read phash in
      let own = λ (y : ℕ). same p.postid y (ground (arith, ==_refl p.postid)) in
      let (t1, e1, l1, q1) =
        plant-ok p pears trees l (pears_of-IsKeyed p duplicates read phash kp) (λ y m. (
          ground (arith, has_phs-pears_of p duplicates read y phash m),
          ground (arith, has_phs-pears_of p duplicates read y phash m, own y),
        )) in
      let (trees', e, l', q) = plant_all-ok duplicates read phash apples t1 l1 kp k (λ x y m.
        ground (
          arith,
          q1 x y,
          same x y,
          m,
          fresh,
          ==_iff x p.postid,
          λ (z : x ≡ p.postid). ap (λ w. has_phs w apples) z,
        )) in
      (
        trees',
        ground (arith, e1, e),
        l',
        λ x y. ground (
          arith,
          q x y,
          q1 x y,
          any_near-pears_of p duplicates read y phash,
          own y,
          ==_iff x p.postid,
          λ (z : x ≡ p.postid). ap (λ w. has_pair w y trees) z,
          λ (z : x ≡ p.postid). ap (λ w. ltb w y) z,
        ),
      )
