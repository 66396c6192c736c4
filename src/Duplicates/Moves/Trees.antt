-- ===== src/Duplicates/Moves/Trees.antt =====
-- The table apple_tree after `updateAppleTrees` of DataManager/duplicates.go.
use pbooru.Prelude.{ℕ, ◌≡◌, refl, ap, true, List, [], ◌∷◌, arith, ==_iff, ==_refl, ok}
use pbooru.Duplicates.Moves.{
  Tree, has_pair, legal, checked, move_apples, move_pears, process, update_apple_trees,
}

-- `all` has the pairs of `trees`
abbrev Covers : List Tree → List Tree → Type 0
Covers all trees = (a b : ℕ) → has_pair a b trees ≡ true → has_pair a b all ≡ true

move_apples-same :
    (p q : ℕ) (all trees : List Tree) → Covers all trees → move_apples p q all trees ≡ trees
unfolding move_apples has_pair
move_apples-same p q all [] c = refl
move_apples-same p q all (t ∷ trees) c = ground (
  arith,
  move_apples-same p q all trees (λ a b h. c a b (ground (arith, h))),
  c t.apple t.pear,
  ==_refl t.apple,
  ==_refl t.pear,
  ==_iff t.apple q,
  λ (e : t.apple ≡ q). ap (λ a. has_pair a t.pear all) e,
)

move_pears-same :
    (p q : ℕ) (all trees : List Tree) → Covers all trees → move_pears p q all trees ≡ trees
unfolding move_pears has_pair
move_pears-same p q all [] c = refl
move_pears-same p q all (t ∷ trees) c = ground (
  arith,
  move_pears-same p q all trees (λ a b h. c a b (ground (arith, h))),
  c t.apple t.pear,
  ==_refl t.apple,
  ==_refl t.pear,
  ==_iff t.pear q,
  λ (e : t.pear ≡ q). ap (λ b. has_pair t.apple b all) e,
)

has_pair-process :
    (q a b : ℕ) (trees : List Tree) → has_pair a b (process q trees) ≡ has_pair a b trees
unfolding process has_pair
has_pair-process q a b [] = refl
has_pair-process q a b (t ∷ trees) = ground (arith, has_pair-process q a b trees)

legal-process : (q : ℕ) (trees : List Tree) → legal (process q trees) ≡ legal trees
unfolding process legal
legal-process q [] = refl
legal-process q (t ∷ trees) =
    ground (arith, legal-process q trees, has_pair-process q t.apple t.pear trees)

-- the rows that hold one of the posts are processed
unfoldable pub process_all : List ℕ → List Tree → List Tree
process_all [] trees = trees
process_all (q ∷ inferior) trees = process_all inferior (process q trees)

-- On a table that meets its constraints, updating the apple trees marks the rows of the inferior
-- posts as processed and does nothing else: no row is moved to the superior post.
pub update_apple_trees_lem :
    (p : ℕ) (inferior : List ℕ) (trees : List Tree)
    → legal trees ≡ true
    → update_apple_trees p inferior trees ≡ ok (process_all inferior trees)
unfolding update_apple_trees process_all checked
update_apple_trees_lem p [] trees l = refl
update_apple_trees_lem p (q ∷ inferior) trees l = ground (
  arith,
  move_apples-same p q trees trees (λ a b h. h),
  move_pears-same p q trees trees (λ a b h. h),
  l,
  legal-process q trees,
  update_apple_trees_lem p inferior (process q trees),
)
