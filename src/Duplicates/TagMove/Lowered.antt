-- ===== src/Duplicates/TagMove/Lowered.antt =====
-- What the counts are lowered by.
use pbooru.Prelude.{
  ℕ, ◌-◌, ◌≡◌, refl, ◌∙◌, ap, true, ◌||◌, List, [], ◌∷◌, ◌++◌, arith, mem, ltb, ◌==◌, ==_iff,
  if◌then◌else◌,
}
use pbooru.Database.{Table, has_row, snd_where}
use pbooru.Duplicates.Moves.Votes.{any_row}
use pbooru.Duplicates.TagMove.{common_count, common_pairs, common_tags, lower_counts}
use pbooru.PostTags.{lower_count}
use pbooru.PostTags.Statements.{has_row-lower_count}
use pbooru.Sets.{IsDistinct}
use pbooru.Tags.Store.{distinct}
use pbooru.Duplicates.TagMove.Posts.{any_row_cons, any_row_nil, mem-snd_where}

-- one of the posts has the tag where the count is positive
pub any_row-common_count :
    (pids : List ℕ) (t : ℕ) (ptm : Table) → any_row pids t ptm ≡ ltb 0 (common_count pids t ptm)
unfolding common_count
any_row-common_count pids t [] = any_row_nil pids t
any_row-common_count pids t ((x, k) ∷ ptm) =
    ground (arith, any_row-common_count pids t ptm, any_row_cons pids t x k ptm)

-- what is left of a count
unfoldable pub lowered : Table → ℕ → ℕ → ℕ
lowered [] id n = n
lowered ((k, v) ∷ common) id n = lowered common id (if id == k then n - v else n)

pub has_row-lower_counts :
    (common : Table) (id m : ℕ) (rows : Table)
    → has_row id m (lower_counts common rows) ≡ true
    → (n : ℕ) × (has_row id n rows ≡ true) × (m ≡ lowered common id n)
unfolding lower_counts lowered
has_row-lower_counts [] id m rows h = (m, h, refl)
has_row-lower_counts ((k, v) ∷ common) id m rows h =
    let (n1, r1, e1) = has_row-lower_counts common id m (lower_count k v rows) h in
    let (n, r, e) = has_row-lower_count k v id n1 rows r1 in (n, r, e1 ∙ ap (lowered common id) e)

pub mem-distinct : (x : ℕ) (xs : List ℕ) → mem x (distinct xs) ≡ mem x xs
unfolding distinct
mem-distinct x [] = refl
mem-distinct x (y ∷ xs) =
    ground (arith, mem-distinct x xs, ==_iff x y, λ (e : x ≡ y). ap (λ z. mem z (distinct xs)) e)

distinct-IsDistinct : (xs : List ℕ) → IsDistinct (distinct xs)
unfolding distinct
distinct-IsDistinct [] = tt
distinct-IsDistinct (x ∷ xs) = ground (arith, distinct-IsDistinct xs)

lowered-common_pairs :
    (pids : List ℕ) (ptm : Table) (tags : List ℕ) (id n : ℕ)
    → IsDistinct tags
    → lowered (common_pairs pids ptm tags) id n
      ≡ n - (if mem id tags then common_count pids id ptm - 1 else 0)
unfolding lowered common_pairs
lowered-common_pairs pids ptm [] id n d = ground arith
lowered-common_pairs pids ptm (t ∷ tags) id n (fresh, d) = ground (
  arith,
  lowered-common_pairs pids ptm tags id n d,
  lowered-common_pairs pids ptm tags id (n - (common_count pids t ptm - 1)) d,
  fresh,
  ==_iff id t,
  λ (e : id ≡ t). ap (λ z. mem z tags) e,
  λ (e : id ≡ t). ap (λ z. common_count pids z ptm) e,
)

pub lowered-common_tags :
    (pids : List ℕ) (ptm : Table) (id n : ℕ)
    → lowered (common_tags pids ptm) id n ≡ n - (common_count pids id ptm - 1)
unfolding common_tags
lowered-common_tags pids ptm id n =
    let tags = distinct (snd_where pids ptm) in
    ground (
      arith,
      lowered-common_pairs pids ptm tags id n (distinct-IsDistinct (snd_where pids ptm)),
      mem-distinct id (snd_where pids ptm),
      mem-snd_where pids id ptm,
      any_row-common_count pids id ptm,
    )

pub any_row_snoc :
    (posts : List ℕ) (p t : ℕ) (ptm : Table)
    → any_row (posts ++ p ∷ []) t ptm ≡ (any_row posts t ptm || has_row p t ptm)
unfolding any_row
any_row_snoc [] p t ptm = ground arith
any_row_snoc (q ∷ posts) p t ptm = ground (arith, any_row_snoc posts p t ptm)
