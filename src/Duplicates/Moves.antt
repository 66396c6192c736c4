-- ===== src/Duplicates/Moves.antt =====
-- What `AssignDuplicates` moves from the inferior posts to the superior, `p` here: `moveVotes`,
-- `movePoolPosts`, `updateAlts` and `updateAppleTrees` of DataManager/duplicates.go.
pub mod Votes
pub mod Alts
pub mod Trees
use pbooru.Prelude.{
  ℕ, Bool, true, false, not, ◌&&◌, ◌||◌, List, [], ◌∷◌, mem, Option, none, some, keep, ltb, ◌==◌,
  if◌then◌else◌, length, is_empty, Outcome, ok, err, ◌>>=◌,
}
use pbooru.Sets.{SetLib, from_list}
use pbooru.Database.{Table, fst, snd, fst_where, snd_where}

-- The rows are (post_id, user_id) of post_score_mapping, or (post_id, pool_id) of pool_mappings,
-- whose position stays with its row.
--
-- UPDATE … SET post_id = p WHERE post_id = q AND user_id NOT IN(taken)
unfoldable pub shift : ℕ → ℕ → List ℕ → Table → Table
shift p q taken [] = []
shift p q taken ((post, key) ∷ rows) =
    ((if post == q && not (mem key taken) then p else post), key) ∷ shift p q taken rows

-- with the users that voted for `p`, and the DELETE of what is left
unfoldable pub move_one : ℕ → ℕ → Table → Table
unfolding shift
move_one p q rows = keep (λ row. not (fst row == q)) (shift p q (snd_where (p ∷ []) rows) rows)

unfoldable pub move_votes : ℕ → List ℕ → Table → Table
unfolding move_one
move_votes p [] rows = rows
move_votes p (q ∷ inferior) rows = move_votes p inferior (move_one p q rows)

unfoldable pub move_pool_posts : ℕ → List ℕ → Table → Table
unfolding move_one
move_pool_posts p [] rows = rows
move_pool_posts p (q ∷ inferior) rows = move_pool_posts p inferior (move_one p q rows)

-- (id, alt_group) of `posts`: the alternatives of the inferiors
unfoldable pub alt_members : List ℕ → Table → List ℕ
unfolding fst_where snd_where
alt_members inferior posts =
    keep (λ id. not (mem id inferior)) (fst_where (snd_where inferior posts) posts)

-- mm.Max over the scanned ids
unfoldable pub max_of : ℕ → List ℕ → ℕ
max_of top [] = top
max_of top (id ∷ ids) = max_of (if ltb top id then id else top) ids

-- UPDATE posts SET alt_group = group WHERE id IN(ids)
unfoldable pub set_group : List ℕ → ℕ → Table → Table
set_group ids group [] = []
set_group ids group ((id, g) ∷ posts) =
    (id, (if mem id ids then group else g)) ∷ set_group ids group posts

-- UPDATE posts SET alt_group = id WHERE id IN(ids)
unfoldable pub reset_group : List ℕ → Table → Table
reset_group ids [] = []
reset_group ids ((id, g) ∷ posts) = (id, (if mem id ids then id else g)) ∷ reset_group ids posts

module _ (S : SetLib) where
  open S use {elems}

  -- the table, and the ids that are logged
  unfoldable pub update_alts : ℕ → List ℕ → Table → Table × Option (List ℕ)
  unfolding alt_members max_of set_group reset_group
  update_alts p inferior posts =
      let members = alt_members inferior posts in
      let pids = elems (from_list S members) in
      let merged = if is_empty pids then posts else set_group pids (max_of p members) posts in
      (reset_group inferior merged, (if ltb 1 (length pids) then some pids else none))

-- a row of apple_tree; `processed` is whether the time is set
pub record Tree : Type 0 where
  pub apple : ℕ
  pub pear : ℕ
  pub processed : Bool

pub data TreeError : Type 0 where
  constraint_violation : TreeError

unfoldable pub has_pair : ℕ → ℕ → List Tree → Bool
has_pair a b [] = false
has_pair a b (t ∷ trees) = a == t.apple && b == t.pear || has_pair a b trees

-- UNIQUE (apple, pear), CHECK (apple < pear)
unfoldable pub legal : List Tree → Bool
unfolding has_pair
legal [] = true
legal (t ∷ trees) = ltb t.apple t.pear && not (has_pair t.apple t.pear trees) && legal trees

unfoldable pub checked : List Tree → Outcome TreeError (List Tree)
unfolding legal
checked trees = if legal trees then ok trees else err constraint_violation

-- SET apple = p WHERE apple = q AND pear NOT IN(SELECT pear FROM apple_tree WHERE apple = q), where
-- `all` are the rows of the subquery
unfoldable pub move_apples : ℕ → ℕ → List Tree → List Tree → List Tree
unfolding has_pair
move_apples p q all [] = []
move_apples p q all (t ∷ trees) =
    (if t.apple == q && not (has_pair q t.pear all) then record t { apple = p } else t)
    ∷ move_apples p q all trees

-- SET pear = p WHERE pear = q AND apple NOT IN(SELECT apple FROM apple_tree WHERE pear = q)
unfoldable pub move_pears : ℕ → ℕ → List Tree → List Tree → List Tree
unfolding has_pair
move_pears p q all [] = []
move_pears p q all (t ∷ trees) =
    (if t.pear == q && not (has_pair t.apple q all) then record t { pear = p } else t)
    ∷ move_pears p q all trees

unfoldable pub process : ℕ → List Tree → List Tree
process q [] = []
process q (t ∷ trees) =
    (if not t.processed && (t.apple == q || t.pear == q) then record t { processed = true } else t)
    ∷ process q trees

unfoldable pub update_apple_trees : ℕ → List ℕ → List Tree → Outcome TreeError (List Tree)
unfolding checked move_apples move_pears process
update_apple_trees p [] trees = ok trees
update_apple_trees p (q ∷ inferior) trees = do
  trees1 ← checked (move_apples p q trees trees)
  trees2 ← checked (move_pears p q trees1 trees1)
  update_apple_trees p inferior (process q trees2)
