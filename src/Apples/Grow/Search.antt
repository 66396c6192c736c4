-- ===== src/Apples/Grow/Search.antt =====
-- `FindSimilar` of DataManager/posts.go against a search of all hashes.
use pbooru.Prelude.{
  ==_iff, Bool, Bool-cases, List, [], ap, arith, false, inl, inr, ltb, mem, not, true, ℕ, ◌&&◌, ◌<◌,
  ◌==◌, ◌||◌, ◌∷◌, ◌≡◌, ◌≤◌,
}
use pbooru.Apples.{Phs, apple_tree_threshold, shares_word, distance}
use pbooru.Apples.Bits.{differing}
use pbooru.Apples.Words.{IsWords, distance-words, shares_word_near}
use pbooru.Apples.Grow.{find_similar}

abbrev pub AreWords : List Phs → Type 0
AreWords [] = Unit {0}
AreWords (p ∷ phash) = IsWords p × AreWords phash

module _ (image_distance : ℕ → ℕ → ℕ) where
  -- a hash of the post is nearer than `dist`
  unfoldable pub is_within : Phs → ℕ → ℕ → List Phs → Bool
  is_within ph dist i [] = false
  is_within ph dist i (h ∷ phash) =
      i == h.postid && ltb (distance image_distance ph h) dist || is_within ph dist i phash

module _ (image_distance : ℕ → ℕ → ℕ)
    (hamming : (a b : ℕ)
      → a < 18446744073709551616
      → b < 18446744073709551616
      → image_distance a b ≡ differing 64 a b) where
  shares_word-sym : (a b : Phs) → shares_word a b ≡ shares_word b a
  unfolding shares_word
  shares_word-sym a b = ground (
    arith,
    ==_iff a.h1 b.h1,
    ==_iff b.h1 a.h1,
    ==_iff a.h2 b.h2,
    ==_iff b.h2 a.h2,
    ==_iff a.h3 b.h3,
    ==_iff b.h3 a.h3,
    ==_iff a.h4 b.h4,
    ==_iff b.h4 a.h4,
  )

  below :
      (ph h : Phs) (dist : ℕ)
      → dist ≤ 4
      → ltb (distance image_distance ph h) dist ≡ true
      → distance image_distance ph h < 4
  below ph h dist small lt = ground (arith, small, lt)

  threshold :
      (ph h : Phs) (dist : ℕ)
      → dist ≤ 4
      → ltb (distance image_distance ph h) dist ≡ true
      → apple_tree_threshold (distance image_distance ph h) ≡ true
  unfolding apple_tree_threshold
  threshold ph h dist small lt = ground (arith, small, lt)

  four :
      (a b : Phs)
      → IsWords a
      → IsWords b
      → differing 16 a.h1 b.h1 ≡ 1
      → differing 16 a.h2 b.h2 ≡ 1
      → differing 16 a.h3 b.h3 ≡ 1
      → differing 16 a.h4 b.h4 ≡ 1
      → distance image_distance a b ≡ 4
  four a b wa wb d1 d2 d3 d4 =
      omega (arith, distance-words image_distance hamming a b wa wb, d1, d2, d3, d4)

  -- below the threshold a word is shared
  near_shares :
      (ph h : Phs) (dist : ℕ)
      → dist ≤ 4
      → IsWords ph
      → IsWords h
      → ltb (distance image_distance ph h) dist ≡ true
      → shares_word h ph ≡ true
  near_shares ph h dist small wp wh lt = elim (Bool-cases (shares_word ph h)) [
    | inl e ↦ ground (arith, shares_word-sym ph h, e)
    | inr e ↦
        let t : apple_tree_threshold (distance image_distance ph h) ≡ true =
          threshold ph h dist small lt in
        let (d1, d2, d3, d4) = shares_word_near image_distance hamming ph h wp wh t e in
        absurd (omega (arith, four ph h wp wh d1 d2 d3 d4, below ph h dist small lt))
  ]

  -- For a distance of at most four and hashes of 16-bit words, `FindSimilar` returns a post exactly
  -- if a hash of it is nearer than the distance and removed posts are searched or it is not removed:
  -- the search by words misses none.
  pub mem-find_similar :
      (ph : Phs) (dist : ℕ) (with_removed : Bool) (removed : ℕ → Bool) (phash : List Phs)
      → dist ≤ 4
      → IsWords ph
      → AreWords phash
      → (i : ℕ)
      → mem i (find_similar image_distance ph dist with_removed removed phash)
        ≡ ((with_removed || not (removed i)) && is_within image_distance ph dist i phash)
  unfolding find_similar is_within
  mem-find_similar ph dist with_removed removed [] small wp ws i = ground arith
  mem-find_similar ph dist with_removed removed (h ∷ phash) small wp (wh, ws) i = ground (
    arith,
    mem-find_similar ph dist with_removed removed phash small wp ws i,
    near_shares ph h dist small wp wh,
    ==_iff i h.postid,
    λ (e : i ≡ h.postid). ap removed e,
  )
