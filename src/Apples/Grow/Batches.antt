-- ===== src/Apples/Grow/Batches.antt =====
-- `GeneratePearsTx` of DataManager/dupgen.go: in batches of ids, the pairs of all hashes that share a
-- word. The rows of a batch are read before its first pair is inserted. The loop over the batches
-- runs on fuel: `none` is a loop that did not end.
pub mod Planted
pub mod All
use pbooru.Prelude.{
  ℕ, List, Option, Outcome, [], err, if◌then◌else◌, keep, leb, ltb, none, not, ok, some, suc, zero,
  ◌&&◌, ◌+◌, ◌>>=◌, ◌∷◌,
}
use Prim.Native.Nat.{◌/◌}
use pbooru.Database.{Table}
use pbooru.Duplicates.{has_dup}
use pbooru.Duplicates.Moves.{Tree, TreeError, has_pair}
use pbooru.Apples.{Phs, apple_tree_threshold, shares_word, distance}
use pbooru.Apples.Grow.{insert_pair}

abbrev pub buf_size : ℕ
buf_size = 10000

-- the hashes p1 of a batch
unfoldable pub apples_of : ℕ → Table → List Phs → List Phs
unfolding has_dup
apples_of start duplicates phash =
    keep
      (λ p.
        ltb start p.postid && leb p.postid (start + buf_size) && not (has_dup p.postid duplicates))
      phash

-- the hashes p2 that the query pairs with p1
unfoldable pub pears_of : Phs → Table → List Tree → List Phs → List Phs
unfolding has_dup has_pair shares_word
pears_of p1 duplicates read phash =
    keep
      (λ p.
        ltb p1.postid p.postid
        && shares_word p p1
        && not (has_pair p1.postid p.postid read)
        && not (has_dup p.postid duplicates))
      phash

-- what follows a statement that may fail
abbrev pub after :
    Outcome TreeError (List Tree)
    → (List Tree → Option (Outcome TreeError (List Tree)))
    → Option (Outcome TreeError (List Tree))
after (err why) next = some (err why)
after (ok trees) next = next trees

-- one round for each batch, and the one that ends the loop
abbrev pub pears_fuel : ℕ → ℕ
pears_fuel max_post = max_post / 10000 + 2

module _ (image_distance : ℕ → ℕ → ℕ) where
  -- the pairs of one tree
  unfoldable pub plant : Phs → List Phs → List Tree → Outcome TreeError (List Tree)
  unfolding insert_pair apple_tree_threshold distance
  plant apple [] trees = ok trees
  plant apple (h ∷ pears) trees =
      let inserted = insert_pair apple.postid h.postid trees >>= plant apple pears in
      let skipped = plant apple pears trees in
      if apple_tree_threshold (distance image_distance apple h) then inserted else skipped

  unfoldable pub plant_all :
      Table → List Tree → List Phs → List Phs → List Tree → Outcome TreeError (List Tree)
  unfolding plant pears_of
  plant_all duplicates read phash [] trees = ok trees
  plant_all duplicates read phash (apple ∷ apples) trees =
      plant apple (pears_of apple duplicates read phash) trees
      >>= plant_all duplicates read phash apples

  unfoldable pub pears_loop :
      ℕ → ℕ → ℕ → Table → List Phs → List Tree → Option (Outcome TreeError (List Tree))
  unfolding plant_all apples_of
  pears_loop zero start max_post duplicates phash trees = none
  pears_loop (suc fuel) start max_post duplicates phash trees =
      let rest =
        after (plant_all duplicates trees phash (apples_of start duplicates phash) trees)
          (pears_loop fuel (start + buf_size) max_post duplicates phash) in
      if leb start max_post then rest else some (ok trees)

  unfoldable pub generate_pears :
      ℕ → Table → List Phs → List Tree → Option (Outcome TreeError (List Tree))
  unfolding pears_loop
  generate_pears max_post = pears_loop (pears_fuel max_post) 0 max_post
