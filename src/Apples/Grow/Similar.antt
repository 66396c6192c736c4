-- ===== src/Apples/Grow/Similar.antt =====
-- The pairs that `generateAppleTree` of DataManager/dupgen.go inserts.
use pbooru.Prelude.{
  ==_iff, Bool, List, [], ap, arith, false, keep, ltb, not, ok, refl, true, ℕ, ◌&&◌, ◌==◌, ◌||◌,
  ◌∙◌, ◌∷◌, ◌≡◌,
}
use pbooru.Database.{Table}
use pbooru.Duplicates.{has_dup}
use pbooru.Duplicates.Moves.{Tree, has_pair, legal}
use pbooru.Apples.{Phs, shares_word}
use pbooru.Apples.Grow.{candidates, generate_apple_tree}
use pbooru.Apples.Grow.Pairs.{IsNew, has_phs, IsKeyed, keep-IsKeyed, near, any_near, grow-ok}

candidates-IsKeyed :
    (ph : Phs) (duplicates : Table) (phash : List Phs)
    → IsKeyed phash
    → IsKeyed (candidates ph duplicates phash)
unfolding candidates
candidates-IsKeyed ph duplicates phash k =
    keep-IsKeyed
      (λ p. not (has_dup p.postid duplicates) && not (p.postid == ph.postid) && shares_word p ph)
      phash k

module _ (image_distance : ℕ → ℕ → ℕ) where
  -- the table holds a hash of the post that shares a word with `ph` and is near to it
  unfoldable pub is_similar : Phs → ℕ → List Phs → Bool
  is_similar ph i [] = false
  is_similar ph i (h ∷ phash) =
      i == h.postid && shares_word h ph && near image_distance ph h || is_similar ph i phash

  -- a test of the candidates that reads the id and whether a word is shared
  pub any_near-keep :
      (ph : Phs) (y : ℕ) (fits : Bool) (test : Phs → Bool) (phash : List Phs)
      → ((h : Phs) → y ≡ h.postid → test h ≡ (fits && shares_word h ph))
      → any_near image_distance ph y (keep test phash) ≡ (fits && is_similar ph y phash)
  unfolding any_near is_similar
  any_near-keep ph y fits test [] reads = ground arith
  any_near-keep ph y fits test (h ∷ phash) reads =
      ground (arith, any_near-keep ph y fits test phash reads, reads h, ==_iff y h.postid)

  any_near-candidates :
      (ph : Phs) (duplicates : Table) (i : ℕ) (phash : List Phs)
      → any_near image_distance ph i (candidates ph duplicates phash)
        ≡ (not (has_dup i duplicates) && not (i == ph.postid) && is_similar ph i phash)
  unfolding candidates
  any_near-candidates ph duplicates i phash =
      any_near-keep ph i (not (has_dup i duplicates) && not (i == ph.postid)) _ phash
        (λ h e. ground (arith, ap (λ z. has_dup z duplicates) e, ap (λ z. z == ph.postid) e))
      ∙ ground arith

  has_phs-candidates :
      (ph : Phs) (duplicates : Table) (phash : List Phs)
      → has_phs ph.postid (candidates ph duplicates phash) ≡ false
  unfolding candidates has_phs
  has_phs-candidates ph duplicates [] = refl
  has_phs-candidates ph duplicates (h ∷ phash) = ground (
    arith,
    has_phs-candidates ph duplicates phash,
    ==_iff ph.postid h.postid,
    ==_iff h.postid ph.postid,
  )

  -- For a post that no pair holds, and with one hash for each post, generating the apple tree succeeds
  -- on a table that meets its constraints. The table still meets them, and the new pairs are those of
  -- the post with the posts that are no duplicates, share a word of the hash and are within the
  -- threshold, the lower id first.
  pub generate_apple_tree_exact :
      (ph : Phs) (duplicates : Table) (phash : List Phs) (trees : List Tree)
      → legal trees ≡ true
      → IsKeyed phash
      → IsNew ph.postid trees
      → (trees' : List Tree) × (generate_apple_tree image_distance ph duplicates phash trees
          ≡ ok trees')
        × (legal trees' ≡ true)
        × ((x y : ℕ)
            → has_pair x y trees' ≡ (
                ltb x y
                  && (x == ph.postid && not (has_dup y duplicates) && is_similar ph y phash
                      || y == ph.postid && not (has_dup x duplicates) && is_similar ph x phash)
                || has_pair x y trees))
  unfolding generate_apple_tree
  generate_apple_tree_exact ph duplicates phash trees l k new' =
      let hashes = candidates ph duplicates phash in
      let (trees', e, l', q) =
        grow-ok image_distance ph hashes trees l (candidates-IsKeyed ph duplicates phash k)
          (has_phs-candidates ph duplicates phash) (λ x m. new' x) in
      (
        trees',
        e,
        l',
        λ x y. ground (
          arith,
          q x y,
          any_near-candidates ph duplicates x phash,
          any_near-candidates ph duplicates y phash,
          ==_iff x ph.postid,
          ==_iff y ph.postid,
        ),
      )
