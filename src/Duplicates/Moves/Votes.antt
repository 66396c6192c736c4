-- ===== src/Duplicates/Moves/Votes.antt =====
-- The votes and the places in pools after `moveVotes` and `movePoolPosts` of
-- DataManager/duplicates.go.
use pbooru.Prelude.{
  ℕ, ◌≡◌, ◌≢◌, refl, ◌∙◌, ap, Bool, false, not, ◌&&◌, ◌||◌, List, [], ◌∷◌, arith, mem, ◌==◌, ==_iff,
  ==_refl, if◌then◌else◌,
}
use pbooru.Database.{Table, fst, has_row, has_row-keep, snd_where, mem-snd_where}
use pbooru.Duplicates.Moves.{shift, move_one, move_votes, move_pool_posts}

-- one of the posts has the row
unfoldable pub any_row : List ℕ → ℕ → Table → Bool
any_row [] key rows = false
any_row (q ∷ posts) key rows = has_row q key rows || any_row posts key rows

has_row-shift :
    (p q x key : ℕ) (taken : List ℕ) (rows : Table)
    → p ≢ q
    → has_row x key (shift p q taken rows) ≡ (
        (x == p && not (mem key taken) && has_row q key rows)
        || (has_row x key rows && not (x == q && not (mem key taken))))
unfolding shift
has_row-shift p q x key taken [] n = ground arith
has_row-shift p q x key taken ((y, k) ∷ rows) n = ground (
  arith,
  has_row-shift p q x key taken rows n,
  ==_iff x p,
  ==_iff x q,
  ==_iff y q,
  ==_iff x y,
  ==_iff q y,
  ==_iff key k,
  λ (e : key ≡ k). ap (λ z. mem z taken) e,
)

has_row-move_one :
    (p q x key : ℕ) (rows : Table)
    → p ≢ q
    → has_row x key (move_one p q rows) ≡ (
        if x == q
        then false
        else if x == p
        then has_row p key rows || has_row q key rows
        else has_row x key rows)
unfolding move_one
has_row-move_one p q x key rows n = ground (
  arith,
  has_row-keep (λ row. not (fst row == q)) x key (shift p q (snd_where (p ∷ []) rows) rows),
  has_row-shift p q x key (snd_where (p ∷ []) rows) rows n,
  mem-snd_where p key rows,
  ==_iff x p,
  ==_iff x q,
  λ (e : x ≡ p). ap (λ z. has_row z key rows) e,
)

any_row-move_one :
    (p q key : ℕ) (posts : List ℕ) (rows : Table)
    → p ≢ q
    → mem p posts ≡ false
    → (any_row posts key (move_one p q rows) || has_row q key rows)
      ≡ (any_row posts key rows || has_row q key rows)
unfolding any_row
any_row-move_one p q key [] rows n out = refl
any_row-move_one p q key (x ∷ posts) rows n out = ground (
  arith,
  any_row-move_one p q key posts rows n,
  out,
  has_row-move_one p q x key rows n,
  ==_iff x q,
  ==_iff x p,
  ==_iff p x,
  λ (e : x ≡ q). ap (λ z. has_row z key rows) e,
)

-- After the votes were moved the superior has a user's vote if it or an inferior had it, the
-- inferiors have none, and every other post has those it had. The superior is not among the
-- inferiors.
pub has_row-move_votes :
    (p : ℕ) (inferior : List ℕ) (rows : Table)
    → mem p inferior ≡ false
    → (post user : ℕ)
    → has_row post user (move_votes p inferior rows) ≡ (
        if post == p
        then has_row p user rows || any_row inferior user rows
        else not (mem post inferior) && has_row post user rows)
unfolding move_votes any_row
has_row-move_votes p [] rows out post user =
    ground (arith, ==_iff post p, λ (e : post ≡ p). ap (λ z. has_row z user rows) e)
has_row-move_votes p (q ∷ inferior) rows out post user =
    let n : p ≢ q = λ e. ground (arith, out, e, ==_iff p q) in
    ground (
      arith,
      has_row-move_votes p inferior (move_one p q rows) (ground (arith, out)) post user,
      out,
      has_row-move_one p q p user rows n,
      has_row-move_one p q post user rows n,
      any_row-move_one p q user inferior rows n,
      ==_iff p q,
      ==_refl p,
      ==_iff post q,
      ==_iff post p,
    )

move_pool_posts-same :
    (p : ℕ) (inferior : List ℕ) (rows : Table)
    → move_pool_posts p inferior rows ≡ move_votes p inferior rows
unfolding move_pool_posts move_votes
move_pool_posts-same p [] rows = refl
move_pool_posts-same p (q ∷ inferior) rows = move_pool_posts-same p inferior (move_one p q rows)

-- After the places in pools were moved the superior is in a pool if it or an inferior was, the
-- inferiors are in none, and every other post is in those it was in. The superior is not among the
-- inferiors.
pub has_row-move_pool_posts :
    (p : ℕ) (inferior : List ℕ) (rows : Table)
    → mem p inferior ≡ false
    → (post pool : ℕ)
    → has_row post pool (move_pool_posts p inferior rows) ≡ (
        if post == p
        then has_row p pool rows || any_row inferior pool rows
        else not (mem post inferior) && has_row post pool rows)
has_row-move_pool_posts p inferior rows out post pool =
    ap (has_row post pool) (move_pool_posts-same p inferior rows)
    ∙ has_row-move_votes p inferior rows out post pool
