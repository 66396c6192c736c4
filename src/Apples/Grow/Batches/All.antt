-- ===== src/Apples/Grow/Batches/All.antt =====
-- The pairs that `GeneratePearsTx` of DataManager/dupgen.go leaves in the table.
use pbooru.Prelude.{
  ==_iff, Bool, Bool-cases, List, [], ap, arith, inl, inr, keep, leb, ltb, not, ok, refl, some, suc,
  true, zero, ℕ, ◌&&◌, ◌*◌, ◌+◌, ◌<◌, ◌||◌, ◌∙◌, ◌∷◌, ◌≡◌, ◌≤◌,
}
use pbooru.Database.{Table}
use pbooru.Duplicates.{has_dup}
use pbooru.Duplicates.Moves.{Tree, has_pair, legal}
use pbooru.Apples.{Phs}
use pbooru.Apples.Grow.Pairs.{has_phs, IsKeyed, keep-IsKeyed}
use pbooru.Apples.Grow.Batches.{apples_of, pears_loop, pears_fuel, generate_pears}
use pbooru.Apples.Grow.Batches.Planted.{similar_posts, plant_all-ok}

apples_of-IsKeyed :
    (start : ℕ) (duplicates : Table) (phash : List Phs)
    → IsKeyed phash
    → IsKeyed (apples_of start duplicates phash)
unfolding apples_of
apples_of-IsKeyed start duplicates phash k = keep-IsKeyed _ phash k

-- the ids of posts count from one to the greatest
abbrev pub IsBounded : ℕ → List Phs → Type 0
IsBounded max_post phash = (x : ℕ) → has_phs x phash ≡ true → (1 ≤ x) × (x ≤ max_post)

module _ (image_distance : ℕ → ℕ → ℕ) where
  similar_posts-keep :
      (x y : ℕ) (fits : Bool) (test : Phs → Bool) (phash apples : List Phs)
      → ((p : Phs) → x ≡ p.postid → test p ≡ fits)
      → similar_posts image_distance x y phash (keep test apples)
        ≡ (fits && similar_posts image_distance x y phash apples)
  unfolding similar_posts
  similar_posts-keep x y fits test phash [] reads = ground arith
  similar_posts-keep x y fits test phash (p ∷ apples) reads =
      ground
        (arith, similar_posts-keep x y fits test phash apples reads, reads p, ==_iff x p.postid)

  similar_posts-apples_of :
      (x y start : ℕ) (duplicates : Table) (phash : List Phs)
      → similar_posts image_distance x y phash (apples_of start duplicates phash) ≡ (
          ltb start x
          && leb x (start + 10000)
          && not (has_dup x duplicates)
          && similar_posts image_distance x y phash phash)
  unfolding apples_of
  similar_posts-apples_of x y start duplicates phash =
      similar_posts-keep x y (ltb start x && leb x (start + 10000) && not (has_dup x duplicates)) _
        phash phash
        (λ p e. ground (
          arith,
          ap (λ z. has_dup z duplicates) e,
          ap (ltb start) e,
          ap (λ z. leb z (start + 10000)) e,
        ))
      ∙ ground arith

  similar_posts-has_phs :
      (x y : ℕ) (phash apples : List Phs)
      → similar_posts image_distance x y phash apples ≡ true
      → has_phs x apples ≡ true
  unfolding similar_posts has_phs
  similar_posts-has_phs x y phash [] h = cc
  similar_posts-has_phs x y phash (p ∷ apples) h =
      ground (arith, similar_posts-has_phs x y phash apples, h)

  -- two posts that the pairs should hold
  unfoldable pub is_match : Table → List Phs → ℕ → ℕ → Bool
  is_match duplicates phash x y =
      ltb x y
      && not (has_dup x duplicates)
      && not (has_dup y duplicates)
      && similar_posts image_distance x y phash phash

  pears_loop-ok :
      (fuel start max_post : ℕ) (duplicates : Table) (phash : List Phs) (trees : List Tree)
      → legal trees ≡ true
      → IsKeyed phash
      → IsBounded max_post phash
      → max_post + 10000 < start + 10000 * fuel
      → start ≤ max_post + 10000
      → (trees' : List Tree) × (pears_loop image_distance fuel start max_post duplicates phash trees
          ≡ some (ok trees'))
        × (legal trees' ≡ true)
        × ((x y : ℕ)
            → has_pair x y trees'
              ≡ (ltb start x && is_match duplicates phash x y || has_pair x y trees))
  unfolding pears_loop is_match
  pears_loop-ok zero start max_post duplicates phash trees l k bounded enough low =
      absurd (omega arith)
  pears_loop-ok (suc fuel) start max_post duplicates phash trees l k bounded enough low =
      elim (Bool-cases (leb start max_post)) [
        | inr end ↦ (
          trees,
          ground (arith, end),
          l,
          λ x y. ground (arith, end, bounded x, similar_posts-has_phs x y phash phash),
        )
        | inl more ↦
            let (t1, e1, l1, q1) =
              plant_all-ok image_distance duplicates trees phash (apples_of start duplicates phash)
                trees l k (apples_of-IsKeyed start duplicates phash k) (λ x y m. refl) in
            let (trees', e, l', q) =
              pears_loop-ok fuel (start + 10000) max_post duplicates phash t1 l1 k bounded
                (omega arith) (ground (arith, more)) in
            (
              trees',
              ground (arith, e1, e, more),
              l',
              λ x y.
                  ground (arith, q x y, q1 x y, similar_posts-apples_of x y start duplicates phash),
            )
      ]

  from_zero :
      (max_post : ℕ) (duplicates : Table) (phash : List Phs) (x y : ℕ) (old : Bool)
      → IsBounded max_post phash
      → (ltb 0 x && is_match duplicates phash x y || old) ≡ (is_match duplicates phash x y || old)
  unfolding is_match
  from_zero max_post duplicates phash x y old bounded =
      ground (arith, bounded x, similar_posts-has_phs x y phash phash)

  -- With one hash for each post, whose ids go from one to the greatest, the loop over the batches ends
  -- without an error on a table that meets its constraints. The table still meets them, and its new
  -- pairs are exactly the posts x < y, neither a duplicate, whose hashes share a word and are within
  -- the threshold.
  pub generate_pears_exact :
      (max_post : ℕ) (duplicates : Table) (phash : List Phs) (trees : List Tree)
      → legal trees ≡ true
      → IsKeyed phash
      → IsBounded max_post phash
      → (trees' : List Tree) × (generate_pears image_distance max_post duplicates phash trees
          ≡ some (ok trees'))
        × (legal trees' ≡ true)
        × ((x y : ℕ) → has_pair x y trees' ≡ (is_match duplicates phash x y || has_pair x y trees))
  unfolding generate_pears
  generate_pears_exact max_post duplicates phash trees l k bounded =
      let (trees', e, l', q) =
        pears_loop-ok (pears_fuel max_post) 0 max_post duplicates phash trees l k bounded
          (omega arith) (omega arith) in
      (
        trees',
        e,
        l',
        λ x y. q x y ∙ from_zero max_post duplicates phash x y (has_pair x y trees) bounded,
      )
