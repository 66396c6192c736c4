-- ===== src/Apples/Examples.antt =====
-- Runs of the theorems on perceptual hashes. The distance is the number of differing bits.
use pbooru.Prelude.{
  ==_iff, List, [], arith, false, ltb, mem, not, ok, refl, some, true, ℕ, ◌&&◌, ◌<◌, ◌==◌, ◌||◌,
  ◌∷◌, ◌≡◌,
}
use pbooru.Duplicates.{has_dup}
use pbooru.Duplicates.Moves.{Tree, has_pair, legal}
use pbooru.Apples.{Phs}
use pbooru.Apples.Bits.{differing}
use pbooru.Apples.Words.{IsWords}
use pbooru.Apples.Grow.{generate_apple_tree, find_similar}
use pbooru.Apples.Grow.Pairs.{IsNew, has_phs, IsKeyed}
use pbooru.Apples.Grow.Similar.{is_similar, generate_apple_tree_exact}
use pbooru.Apples.Grow.Batches.{generate_pears}
use pbooru.Apples.Grow.Batches.All.{is_match, IsBounded, generate_pears_exact}
use pbooru.Apples.Grow.Search.{is_within, mem-find_similar}

hamming :
    (a b : ℕ)
    → a < 18446744073709551616
    → b < 18446744073709551616
    → differing 64 a b ≡ differing 64 a b
hamming a b h h' = refl

abbrev one : Phs
one = record { postid = 1; h1 = 0; h2 = 0; h3 = 0; h4 = 7 }

-- one bit in each word from the first
abbrev two : Phs
two = record { postid = 2; h1 = 1; h2 = 2; h3 = 4; h4 = 15 }

-- one bit in the first word
abbrev three : Phs
three = record { postid = 3; h1 = 8; h2 = 0; h3 = 0; h4 = 7 }

one-IsWords : IsWords one
one-IsWords = record { w1 = omega arith; w2 = omega arith; w3 = omega arith; w4 = omega arith }

two-IsWords : IsWords two
two-IsWords = record { w1 = omega arith; w2 = omega arith; w3 = omega arith; w4 = omega arith }

three-IsWords : IsWords three
three-IsWords = record { w1 = omega arith; w2 = omega arith; w3 = omega arith; w4 = omega arith }

abbrev phash : List Phs
phash = one ∷ two ∷ three ∷ []

abbrev trees : List Tree
trees = record { apple = 1; pear = 2; processed = false } ∷ []

trees-legal : legal trees ≡ true
unfolding legal has_pair
trees-legal = refl

phash-IsKeyed : IsKeyed phash
unfolding has_phs
phash-IsKeyed = (refl, (refl, (refl, tt)))

three-IsNew : IsNew 3 trees
unfolding has_pair
three-IsNew x = (refl, ground arith)

generate_apple_tree_exact_example :
    (trees' : List Tree) × (generate_apple_tree (differing 64) three [] phash trees ≡ ok trees')
    × (legal trees' ≡ true)
    × ((x y : ℕ)
        → has_pair x y trees' ≡ (
            ltb x y
              && (x == 3 && not (has_dup y []) && is_similar (differing 64) three y phash
                  || y == 3 && not (has_dup x []) && is_similar (differing 64) three x phash)
            || has_pair x y trees))
generate_apple_tree_exact_example =
    generate_apple_tree_exact (differing 64) three [] phash trees trees-legal phash-IsKeyed
      three-IsNew

phash-IsBounded : IsBounded 3 phash
unfolding has_phs
phash-IsBounded x h = (
  ground (arith, h, ==_iff x 1, ==_iff x 2, ==_iff x 3),
  ground (arith, h, ==_iff x 1, ==_iff x 2, ==_iff x 3),
)

generate_pears_exact_example :
    (trees' : List Tree) × (generate_pears (differing 64) 3 [] phash trees ≡ some (ok trees'))
    × (legal trees' ≡ true)
    × ((x y : ℕ)
        → has_pair x y trees' ≡ (is_match (differing 64) [] phash x y || has_pair x y trees))
generate_pears_exact_example =
    generate_pears_exact (differing 64) 3 [] phash trees trees-legal phash-IsKeyed phash-IsBounded

mem-find_similar_example :
    mem 3 (find_similar (differing 64) one 3 true (λ x. false) phash)
    ≡ ((true || not false) && is_within (differing 64) one 3 3 phash)
mem-find_similar_example =
    mem-find_similar (differing 64) hamming one 3 true (λ x. false) phash (omega arith) one-IsWords
      (one-IsWords, (two-IsWords, (three-IsWords, tt))) 3
