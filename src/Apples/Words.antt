-- ===== src/Apples/Words.antt =====
-- The distance of two `phs` against the hashes that they were made of, and the words that they share.
use pbooru.Prelude.{arith, ℕ, ◌*◌, ◌+◌, ◌<◌, ◌≡◌, ==_iff, ap, false, true, ◌==◌, ◌∙◌, ◌≤◌}
use pbooru.Apples.{Phs, phs_from_hash, distance, apple_tree_threshold, to_hash, shares_word}
use pbooru.Apples.Bits.{differing, shifted, differing-split, differing_zero}

-- four words, the lowest first
abbrev pub pack : ℕ → ℕ → ℕ → ℕ → ℕ
pack w x y z = w + x * 65536 + y * 4294967296 + z * 281474976710656

shifted-16 : (r : ℕ) → shifted 16 r ≡ r * 65536
unfolding shifted
shifted-16 r = omega arith

differing-pack :
    (w x y z w' x' y' z' : ℕ)
    → w < 65536
    → x < 65536
    → y < 65536
    → w' < 65536
    → x' < 65536
    → y' < 65536
    → differing 64 (pack w x y z) (pack w' x' y' z')
      ≡ differing 16 w w' + differing 16 x x' + differing 16 y y' + differing 16 z z'
differing-pack w x y z w' x' y' z' hw hx hy hw' hx' hy' =
    let one : shifted 16 1 ≡ 65536 = shifted-16 1 in
    let e : (a b c d : ℕ) → pack a b c d ≡ a + shifted 16 (b + shifted 16 (c + shifted 16 d)) =
      λ a b c d. omega (
        arith,
        shifted-16 d,
        shifted-16 (c + shifted 16 d),
        shifted-16 (b + shifted 16 (c + shifted 16 d)),
      ) in
    rw
      (
        e w x y z,
        e w' x' y' z',
        differing-split 16 48 w w' (x + shifted 16 (y + shifted 16 z))
            (x' + shifted 16 (y' + shifted 16 z')) (omega arith) (omega arith),
        differing-split 16 32 x x' (y + shifted 16 z) (y' + shifted 16 z') (omega arith)
            (omega arith),
        differing-split 16 16 y y' z z' (omega arith) (omega arith),
      )
      (omega arith)

-- the fields are words
pub record IsWords (p : Phs) : Type 0 where
  pub w1 : p.h1 < 65536
  pub w2 : p.h2 < 65536
  pub w3 : p.h3 < 65536
  pub w4 : p.h4 < 65536

pub phs_from_hash-IsWords : (i hash : ℕ) → IsWords (phs_from_hash i hash)
unfolding phs_from_hash
phs_from_hash-IsWords i hash = record {
  w1 = omega arith;
  w2 = omega arith;
  w3 = omega arith;
  w4 = omega arith;
}

pack-phs_from_hash :
    (i hash : ℕ)
    → hash < 18446744073709551616
    → hash
      ≡ pack
          (phs_from_hash i hash).h4
          (phs_from_hash i hash).h3
          (phs_from_hash i hash).h2
          (phs_from_hash i hash).h1
unfolding phs_from_hash
pack-phs_from_hash i hash h = omega arith

-- the sum over the four words
abbrev pub word_distance : Phs → Phs → ℕ
word_distance a b =
    differing 16 a.h1 b.h1
    + differing 16 a.h2 b.h2
    + differing 16 a.h3 b.h3
    + differing 16 a.h4 b.h4

differing_positive : (a b : ℕ) → a < 65536 → b < 65536 → (a == b) ≡ false → 1 ≤ differing 16 a b
differing_positive a b h h' n = ground (
  arith,
  n,
  ==_iff a b,
  shifted-16 1,
  λ (e : differing 16 a b ≡ 0).
      differing_zero 16 a b (omega (arith, shifted-16 1)) (omega (arith, shifted-16 1)) e,
)

module _ (image_distance : ℕ → ℕ → ℕ)
    (hamming : (a b : ℕ)
      → a < 18446744073709551616
      → b < 18446744073709551616
      → image_distance a b ≡ differing 64 a b) where
  pub distance-words :
      (a b : Phs) → IsWords a → IsWords b → distance image_distance a b ≡ word_distance a b
  unfolding distance to_hash
  distance-words a b wa wb =
      hamming (to_hash a) (to_hash b) (omega (arith, wa.w1, wa.w2, wa.w3, wa.w4))
        (omega (arith, wb.w1, wb.w2, wb.w3, wb.w4))
      ∙ differing-pack a.h1 a.h2 a.h3 a.h4 b.h1 b.h2 b.h3 b.h4 wa.w1 wa.w2 wa.w3 wb.w1 wb.w2 wb.w3

  -- If imgsim.Distance counts the bits in which two 64-bit hashes differ, the distance of the `phs` of
  -- two hashes is the number of bits in which these hashes differ, although the words stand in the
  -- reverse order in the hash that is made of a `phs`.
  pub distance-phs_from_hash :
      (i j a b : ℕ)
      → a < 18446744073709551616
      → b < 18446744073709551616
      → distance image_distance (phs_from_hash i a) (phs_from_hash j b) ≡ differing 64 a b
  distance-phs_from_hash i j a b ha hb =
      let p = phs_from_hash i a in
      let q = phs_from_hash j b in
      let wp = phs_from_hash-IsWords i a in
      let wq = phs_from_hash-IsWords j b in
      omega (
        arith,
        distance-words p q wp wq,
        differing-pack p.h4 p.h3 p.h2 p.h1 q.h4 q.h3 q.h2 q.h1 wp.w4 wp.w3 wp.w2 wq.w4 wq.w3 wq.w2,
        ap (λ z. differing 64 z (pack q.h4 q.h3 q.h2 q.h1)) (pack-phs_from_hash i a ha),
        ap (differing 64 a) (pack-phs_from_hash j b hb),
      )

  -- Two `phs` within the threshold share a word, unless they differ in exactly four bits, one in each
  -- word: no pair nearer than that is missed by a query for a shared word.
  pub shares_word_near :
      (a b : Phs)
      → IsWords a
      → IsWords b
      → apple_tree_threshold (distance image_distance a b) ≡ true
      → shares_word a b ≡ false
      → (differing 16 a.h1 b.h1 ≡ 1)
        × (differing 16 a.h2 b.h2 ≡ 1)
        × (differing 16 a.h3 b.h3 ≡ 1)
        × (differing 16 a.h4 b.h4 ≡ 1)
  unfolding apple_tree_threshold shares_word
  shares_word_near a b wa wb near none' =
      let d = distance-words a b wa wb in
      let p1 : 1 ≤ differing 16 a.h1 b.h1 =
        differing_positive a.h1 b.h1 wa.w1 wb.w1 (ground (arith, none')) in
      let p2 : 1 ≤ differing 16 a.h2 b.h2 =
        differing_positive a.h2 b.h2 wa.w2 wb.w2 (ground (arith, none')) in
      let p3 : 1 ≤ differing 16 a.h3 b.h3 =
        differing_positive a.h3 b.h3 wa.w3 wb.w3 (ground (arith, none')) in
      let p4 : 1 ≤ differing 16 a.h4 b.h4 =
        differing_positive a.h4 b.h4 wa.w4 wb.w4 (ground (arith, none')) in
      let four : distance image_distance a b ≤ 4 = ground (arith, near) in
      (omega arith, omega arith, omega arith, omega arith)
