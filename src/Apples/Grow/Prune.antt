-- ===== src/Apples/Grow/Prune.antt =====
-- `RecalculateAppletree` and `PluckApple` of DataManager/dupgen.go.
use pbooru.Prelude.{
  ==_iff, Bool, List, Option, [], ap, arith, false, if◌then◌else◌, keep, mem, none, not, refl, some,
  true, ℕ, ◌&&◌, ◌==◌, ◌||◌, ◌∙◌, ◌∷◌, ◌≡◌,
}
use pbooru.Duplicates.Moves.{Tree, has_pair, legal}
use pbooru.Apples.{Phs, apple_tree_threshold, distance}
use pbooru.Apples.Grow.{phs_of}

-- UPDATE apple_tree SET processed … for one pear
unfoldable pub pluck : ℕ → ℕ → List Tree → List Tree
pluck p q [] = []
pluck p q (t ∷ trees) =
    (if t.apple == p && t.pear == q || t.apple == q && t.pear == p
      then record t { processed = true }
      else t)
    ∷ pluck p q trees

unfoldable pub pluck_apple : ℕ → List ℕ → List Tree → List Tree
unfolding pluck
pluck_apple p [] trees = trees
pluck_apple p (q ∷ inferior) trees = pluck_apple p inferior (pluck p q trees)

-- the pair is not processed yet
unfoldable pub is_waiting : ℕ → ℕ → List Tree → Bool
is_waiting a b [] = false
is_waiting a b (t ∷ trees) = a == t.apple && b == t.pear && not t.processed || is_waiting a b trees

is_waiting-pluck :
    (a b p q : ℕ) (trees : List Tree)
    → is_waiting a b (pluck p q trees)
      ≡ (is_waiting a b trees && not (a == p && b == q || a == q && b == p))
unfolding is_waiting pluck
is_waiting-pluck a b p q [] = ground arith
is_waiting-pluck a b p q (t ∷ trees) = ground (
  arith,
  is_waiting-pluck a b p q trees,
  ==_iff a t.apple,
  ==_iff b t.pear,
  ==_iff a p,
  ==_iff a q,
  ==_iff b p,
  ==_iff b q,
  ==_iff t.apple p,
  ==_iff t.apple q,
  ==_iff t.pear p,
  ==_iff t.pear q,
)

-- After an apple was plucked, the pairs that wait are those that waited, but for the pairs of the
-- post with one of the inferiors, on either side.
pub is_waiting-pluck_apple :
    (a b p : ℕ) (inferior : List ℕ) (trees : List Tree)
    → is_waiting a b (pluck_apple p inferior trees)
      ≡ (is_waiting a b trees && not (a == p && mem b inferior || b == p && mem a inferior))
unfolding pluck_apple
is_waiting-pluck_apple a b p [] trees = ground arith
is_waiting-pluck_apple a b p (q ∷ inferior) trees =
    ground (
      arith,
      is_waiting-pluck_apple a b p inferior (pluck p q trees),
      is_waiting-pluck a b p q trees,
    )

module _ (image_distance : ℕ → ℕ → ℕ) where
  -- both hashes are there, and too far apart
  unfoldable pub is_mismatch : Option Phs → Option Phs → Bool
  unfolding apple_tree_threshold distance
  is_mismatch none pear = false
  is_mismatch (some a) none = false
  is_mismatch (some a) (some b) = not (apple_tree_threshold (distance image_distance a b))

  unfoldable pub recalculate_appletree : List Phs → List Tree → List Tree
  unfolding is_mismatch phs_of
  recalculate_appletree phash trees =
      keep (λ t. not (is_mismatch (phs_of t.apple phash) (phs_of t.pear phash))) trees

  -- A recalculation keeps the constraints of the table and removes exactly the pairs whose hashes are
  -- both known and too far apart.
  pub has_pair-recalculate_appletree :
      (phash : List Phs) (trees : List Tree)
      → legal trees ≡ true
      → (legal (recalculate_appletree phash trees) ≡ true)
        × ((a b : ℕ)
            → has_pair a b (recalculate_appletree phash trees)
              ≡ (has_pair a b trees && not (is_mismatch (phs_of a phash) (phs_of b phash))))
  unfolding recalculate_appletree has_pair legal
  has_pair-recalculate_appletree phash [] l = (refl, λ a b. refl)
  has_pair-recalculate_appletree phash (t ∷ trees) l =
      let (l', q) = has_pair-recalculate_appletree phash trees (ground (arith, l)) in
      (
        ground (arith, l', q t.apple t.pear),
        λ a b. ground (
          arith,
          q a b,
          ==_iff a t.apple,
          ==_iff b t.pear,
          λ (e : a ≡ t.apple) (e' : b ≡ t.pear).
              ap (λ z. is_mismatch (phs_of z phash) (phs_of b phash)) e
              ∙ ap (λ z. is_mismatch (phs_of t.apple phash) (phs_of z phash)) e',
        ),
      )
