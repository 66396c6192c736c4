-- ===== src/Apples/Grow.antt =====
-- The statements of DataManager/dupgen.go on the tables phash, duplicates and apple_tree:
-- `generateAppleTree`, `GeneratePearsTx`, `RecalculateAppletree` and `PluckApple`, and `FindSimilar`
-- of DataManager/posts.go. The goroutines of a batch only compare hashes; the pairs that they send are
-- inserted one after another, here in the order of the query. `processed` is whether the time is set.
pub mod Pairs
pub mod Similar
pub mod Batches
pub mod Prune
pub mod Search
use pbooru.Prelude.{
  ℕ, Bool, List, Option, Outcome, [], false, if◌then◌else◌, keep, ltb, none, not, ok, some, ◌&&◌,
  ◌==◌, ◌>>=◌, ◌||◌, ◌∷◌,
}
use pbooru.Database.{Table, snd}
use pbooru.Duplicates.{has_dup}
use pbooru.Duplicates.Moves.{Tree, TreeError, has_pair, checked}
use pbooru.Apples.{Phs, apple_tree_threshold, shares_word, distance}

-- INSERT INTO apple_tree(apple, pear)
unfoldable pub insert_pair : ℕ → ℕ → List Tree → Outcome TreeError (List Tree)
unfolding checked
insert_pair apple pear trees =
    checked (record { apple = apple; pear = pear; processed = false } ∷ trees)

-- the hashes that the query of generateAppleTree selects
unfoldable pub candidates : Phs → Table → List Phs → List Phs
unfolding shares_word has_dup
candidates ph duplicates phash =
    keep (λ p. not (has_dup p.postid duplicates) && not (p.postid == ph.postid) && shares_word p ph)
      phash

module _ (image_distance : ℕ → ℕ → ℕ) where
  unfoldable pub grow : Phs → List Phs → List Tree → Outcome TreeError (List Tree)
  unfolding insert_pair apple_tree_threshold distance
  grow ph [] trees = ok trees
  grow ph (h ∷ hashes) trees =
      let low = if ltb ph.postid h.postid then ph.postid else h.postid in
      let high = if ltb ph.postid h.postid then h.postid else ph.postid in
      let inserted = insert_pair low high trees >>= grow ph hashes in
      let skipped = grow ph hashes trees in
      if apple_tree_threshold (distance image_distance ph h) then inserted else skipped

  unfoldable pub generate_apple_tree :
      Phs → Table → List Phs → List Tree → Outcome TreeError (List Tree)
  unfolding grow candidates
  generate_apple_tree ph duplicates phash trees = grow ph (candidates ph duplicates phash) trees

  -- FindSimilar once the hashes of the post were looked up, which fails for the id 0 and for a post with
  -- no row. `removed` is posts.removed; with `with_removed` all posts are searched.
  unfoldable pub find_similar : Phs → ℕ → Bool → (ℕ → Bool) → List Phs → List ℕ
  unfolding shares_word distance
  find_similar ph dist with_removed removed [] = []
  find_similar ph dist with_removed removed (h ∷ phash) =
      let rest = find_similar ph dist with_removed removed phash in
      if shares_word h ph
        && (with_removed || not (removed h.postid))
        && ltb (distance image_distance ph h) dist
      then h.postid ∷ rest
      else rest

-- the row of phash
unfoldable pub phs_of : ℕ → List Phs → Option Phs
phs_of i [] = none
phs_of i (p ∷ phash) = if p.postid == i then some p else phs_of i phash
