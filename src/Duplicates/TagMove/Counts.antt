-- ===== src/Duplicates/TagMove/Counts.antt =====
-- The counts of tags after `moveTags`.
use pbooru.Prelude.{
  ℕ, ◌+◌, ◌≡◌, refl, sym, ◌∙◌, ap, true, false, not, ◌||◌, List, [], ◌∷◌, ◌++◌, arith, mem,
  mem-append, keep, ltb, ◌==◌, ==_iff, ==_refl, if◌then◌else◌, Bool-cases, inl, inr, ok,
}
use pbooru.Sets.{SetLib, from_list}
use pbooru.Database.{Table, fst, has_row, snd_where}
use pbooru.Duplicates.Moves.Votes.{any_row}
use pbooru.Duplicates.TagMove.{common_count, common_tags, strip, move_tags}
use pbooru.PostTags.{PostTagsLog, insert_tags}
use pbooru.PostTags.Statements.{IsUnique, keep-IsUnique, insert_tags-IsUnique}
use pbooru.Duplicates.{unique_violation}
use pbooru.Tags.Store.{Store, count_posts}
use pbooru.Tags.Store.Counts.{IsCounted}
use pbooru.Duplicates.TagMove.Posts.{move_tags-IsMoved, has_row-move_tags}
use pbooru.Duplicates.TagMove.Lowered.{
  any_row-common_count, any_row_snoc, has_row-lower_counts, lowered-common_tags,
}

abbrev others : List ℕ → Table → Table
others pids ptm = keep (λ row. not (mem (fst row) pids)) ptm

count_posts-split :
    (pids : List ℕ) (t : ℕ) (ptm : Table)
    → count_posts t ptm ≡ common_count pids t ptm + count_posts t (others pids ptm)
unfolding count_posts common_count
count_posts-split pids t [] = refl
count_posts-split pids t ((x, k) ∷ ptm) = ground (arith, count_posts-split pids t ptm)

-- where only `p` has the tag it is counted once
common_count-single :
    (pids : List ℕ) (p t : ℕ) (rows : Table)
    → mem p pids ≡ true
    → IsUnique rows
    → ((x : ℕ) → mem x pids ≡ true → has_row x t rows ≡ true → x ≡ p)
    → common_count pids t rows ≡ (if has_row p t rows then 1 else 0)
unfolding common_count
common_count-single pids p t [] m u only = refl
common_count-single pids p t ((x, k) ∷ rows) m (fresh, u) only = ground (
  arith,
  common_count-single pids p t rows m u (λ y my h. only y my (ground (arith, h))),
  only x,
  fresh,
  m,
  ==_iff p x,
  ==_iff t k,
  ==_refl x,
  λ (e : t ≡ k). ap (λ z. has_row x z rows) e,
  λ (e : x ≡ p). ap (λ z. has_row z t rows) e,
)

others-insert_tags :
    {E : Type 0} (v : E) (pids : List ℕ) (p : ℕ) (tags : List ℕ) (rows rows' : Table)
    → mem p pids ≡ true
    → insert_tags v p tags rows ≡ ok rows'
    → others pids rows' ≡ others pids rows
unfolding insert_tags
others-insert_tags v pids p [] rows rows' m h = ap (others pids) (ground (arith, h))
others-insert_tags v pids p (t ∷ tags) rows rows' m h = elim (Bool-cases (has_row p t rows)) [
  | inl e ↦ absurd (ground (arith, e, h))
  | inr e ↦
      others-insert_tags v pids p tags ((p, t) ∷ rows) rows' m (ground (arith, e, h))
      ∙ ground (arith, m)
]

others-keep :
    (pids : List ℕ) (q : ℕ) (rows : Table)
    → mem q pids ≡ true
    → others pids (keep (λ row. not (fst row == q)) rows) ≡ others pids rows
others-keep pids q [] m = refl
others-keep pids q ((x, k) ∷ rows) m =
    ground (arith, others-keep pids q rows m, ==_iff x q, m, λ (e : x ≡ q). ap (λ z. mem z pids) e)

module _ (S : SetLib) where
  open S use {Set, elems, new, union}

  strip-IsUnique :
      (set : Set) (inferior : List ℕ) (ptm : Table)
      → IsUnique ptm
      → IsUnique (strip S set inferior ptm).1
  unfolding strip
  strip-IsUnique set [] ptm u = u
  strip-IsUnique set (q ∷ inferior) ptm u =
      strip-IsUnique (union set (from_list S (snd_where (q ∷ []) ptm))) inferior
        (keep (λ row. not (fst row == q)) ptm) (keep-IsUnique _ ptm u)

  others-strip :
      (pids : List ℕ) (set : Set) (inferior : List ℕ) (ptm : Table)
      → ((q : ℕ) → mem q inferior ≡ true → mem q pids ≡ true)
      → others pids (strip S set inferior ptm).1 ≡ others pids ptm
  unfolding strip
  others-strip pids set [] ptm all = refl
  others-strip pids set (q ∷ inferior) ptm all =
      others-strip pids (union set (from_list S (snd_where (q ∷ []) ptm))) inferior
        (keep (λ row. not (fst row == q)) ptm) (λ x m. all x (ground (arith, m)))
      ∙ others-keep pids q ptm (all q (ground (arith, ==_refl q)))

  -- Moving tags keeps every tag's count equal to the number of its posts, if no post has a tag
  -- twice and the superior is not among the inferiors.
  pub move_tags-IsCounted :
      (p : ℕ) (inferior : List ℕ) (s s' : Store) (logs : List PostTagsLog)
      → mem p inferior ≡ false
      → IsUnique s.post_tag_mappings
      → move_tags S p inferior s ≡ ok (s', logs)
      → IsCounted s.post_tag_mappings s.tags
      → IsCounted s'.post_tag_mappings s'.tags
  move_tags-IsCounted p inferior s s' logs out unique done counted id n r =
      let m = move_tags-IsMoved S p inferior s s' logs done in
      let ptm = s.post_tag_mappings in
      let ptm' = s'.post_tag_mappings in
      let pids = inferior ++ p ∷ [] in
      let stripped = (strip S new inferior ptm).1 in
      let listed : (x : ℕ) → mem x pids ≡ (mem x inferior || x == p) =
        λ x. ground (arith, mem-append x inferior (p ∷ [])) in
      let own : mem p pids ≡ true = ground (arith, listed p, ==_refl p) in
      let same : others pids ptm' ≡ others pids ptm =
        others-insert_tags unique_violation pids p m.new_tags stripped ptm' own m.inserted
        ∙ others-strip pids new inferior ptm (λ q e. ground (arith, e, listed q)) in
      let exact = has_row-move_tags S p inferior s s' logs out done in
      let single : common_count pids id ptm' ≡ (if has_row p id ptm' then 1 else 0) =
        common_count-single pids p id ptm' own
          (insert_tags-IsUnique unique_violation p m.new_tags stripped ptm' m.inserted
            (strip-IsUnique new inferior ptm unique))
          (λ x mx h. ground (arith, exact x id, mx, h, listed x, ==_iff x p)) in
      let any : (has_row p id ptm || any_row inferior id ptm) ≡ ltb 0 (common_count pids id ptm) =
        ground (arith, any_row_snoc inferior p id ptm, any_row-common_count pids id ptm) in
      let (n0, r0, e0) =
        has_row-lower_counts (common_tags pids ptm) id n s.tags
          (ap (has_row id n) (sym m.counts) ∙ r) in
      let before : n0 ≡ count_posts id ptm = counted id n0 r0 in
      ground (
        arith,
        e0,
        before,
        lowered-common_tags pids ptm id n0,
        count_posts-split pids id ptm,
        count_posts-split pids id ptm',
        ap (count_posts id) same,
        single,
        exact p id,
        ==_refl p,
        any,
      )
