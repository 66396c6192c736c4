-- ===== src/Duplicates/TagMove/Posts.antt =====
-- The tags of posts after `moveTags`.
use pbooru.Prelude.{
  map, ℕ, ◌≡◌, refl, sym, ◌∙◌, ap, true, false, not, ◌&&◌, ◌||◌, List, [], ◌∷◌, ◌++◌, arith, mem,
  keep, ◌==◌, ==_iff, if◌then◌else◌, ok, >>=-eq-ok,
}
use pbooru.Sets.{SetLib, from_list, mem-from_list}
use pbooru.Database.{Table, fst, has_row, has_row-keep, snd_where}
use pbooru.Duplicates.Moves.Votes.{any_row}
use pbooru.Duplicates.TagMove.{common_tags, lower_counts, strip, move_tags}
use pbooru.PostTags.{PostTagsLog, insert_tags, clear_empty_search_count_cache}
use pbooru.PostTags.Statements.{has_row-insert_tags}
use pbooru.Duplicates.{unique_violation}
use pbooru.Tags.Store.{Store, purge_count_cache}
use pbooru.Tags.Store.Counts.{purge_count_cache-SameTags}
use pbooru.Tags.Parent.Closure.{IsUpgraded}

pub any_row_cons :
    (pids : List ℕ) (t x k : ℕ) (ptm : Table)
    → any_row pids t ((x, k) ∷ ptm) ≡ (mem x pids && t == k || any_row pids t ptm)
unfolding any_row
any_row_cons [] t x k ptm = refl
any_row_cons (p ∷ pids) t x k ptm =
    ground (arith, any_row_cons pids t x k ptm, ==_iff x p, ==_iff p x)

pub any_row_nil : (pids : List ℕ) (t : ℕ) → any_row pids t [] ≡ false
unfolding any_row
any_row_nil [] t = refl
any_row_nil (p ∷ pids) t = any_row_nil pids t

pub mem-snd_where :
    (pids : List ℕ) (t : ℕ) (ptm : Table) → mem t (snd_where pids ptm) ≡ any_row pids t ptm
unfolding snd_where
mem-snd_where pids t [] = sym (any_row_nil pids t)
mem-snd_where pids t ((x, k) ∷ ptm) =
    ground (arith, mem-snd_where pids t ptm, any_row_cons pids t x k ptm)

any_row-keep :
    (q t : ℕ) (posts : List ℕ) (ptm : Table)
    → (any_row posts t (keep (λ row. not (fst row == q)) ptm) || has_row q t ptm)
      ≡ (any_row posts t ptm || has_row q t ptm)
unfolding any_row
any_row-keep q t [] ptm = refl
any_row-keep q t (x ∷ posts) ptm = ground (
  arith,
  any_row-keep q t posts ptm,
  has_row-keep (λ row. not (fst row == q)) x t ptm,
  ==_iff x q,
  λ (e : x ≡ q). ap (λ z. has_row z t ptm) e,
)

module _ (S : SetLib) where
  open S use {Set, elems, new, elems_new, union, diff, mem_union, mem_diff}

  pub strip-rows :
      (set : Set) (inferior : List ℕ) (ptm : Table) (x t : ℕ)
      → has_row x t (strip S set inferior ptm).1 ≡ (not (mem x inferior) && has_row x t ptm)
  unfolding strip
  strip-rows set [] ptm x t = refl
  strip-rows set (q ∷ inferior) ptm x t = ground (
    arith,
    strip-rows (union set (from_list S (snd_where (q ∷ []) ptm))) inferior
        (keep (λ row. not (fst row == q)) ptm) x t,
    has_row-keep (λ row. not (fst row == q)) x t ptm,
  )

  strip-tags :
      (set : Set) (inferior : List ℕ) (ptm : Table) (t : ℕ)
      → mem t (elems (strip S set inferior ptm).0) ≡ (mem t (elems set) || any_row inferior t ptm)
  unfolding strip any_row
  strip-tags set [] ptm t = ground arith
  strip-tags set (q ∷ inferior) ptm t =
      let infset = from_list S (snd_where (q ∷ []) ptm) in
      ground (
        arith,
        strip-tags (union set infset) inferior (keep (λ row. not (fst row == q)) ptm) t,
        mem_union t set infset,
        mem-from_list S t (snd_where (q ∷ []) ptm),
        mem-snd_where (q ∷ []) t ptm,
        any_row-keep q t inferior ptm,
      )

  -- the parts of a successful run
  pub record IsMoved (p : ℕ) (inferior : List ℕ) (s s' : Store) : Type 0 where
    pub new_tags : List ℕ
    pub inserted :
        insert_tags unique_violation p new_tags (strip S new inferior s.post_tag_mappings).1
        ≡ ok s'.post_tag_mappings
    pub chosen :
        (t : ℕ)
        → mem t new_tags
          ≡ (any_row inferior t s.post_tag_mappings && not (has_row p t s.post_tag_mappings))
    pub counts :
        s'.tags ≡ lower_counts (common_tags (inferior ++ p ∷ []) s.post_tag_mappings) s.tags
    pub family : s'.parent_tags ≡ s.parent_tags

  pub move_tags-IsMoved :
      (p : ℕ) (inferior : List ℕ) (s s' : Store) (logs : List PostTagsLog)
      → move_tags S p inferior s ≡ ok (s', logs)
      → IsMoved p inferior s s'
  unfolding move_tags clear_empty_search_count_cache any_row
  move_tags-IsMoved p inferior s s' logs h =
      let ptm = s.post_tag_mappings in
      let post_set = from_list S (snd_where (p ∷ []) ptm) in
      let collected = (strip S new inferior ptm).0 in
      let (rows, i, h1) =
        >>=-eq-ok
          (insert_tags unique_violation p (elems (diff collected post_set))
            (strip S new inferior ptm).1)
          _ h in
      let common = common_tags (inferior ++ p ∷ []) ptm in
      let moved : Store = record s {
        post_tag_mappings = rows;
        tags = lower_counts common s.tags;
      } in
      let changed = elems (from_list S (map fst common)) in
      let same = purge_count_cache-SameTags changed moved in
      let e : clear_empty_search_count_cache (purge_count_cache changed moved) ≡ s' =
        ground (arith, h1) in
      record {
        new_tags = elems (diff collected post_set);
        inserted = i ∙ ap ok (sym same.posts ∙ ap (λ (z : Store). z.post_tag_mappings) e);
        chosen = λ t. ground (
          arith,
          mem_diff t collected post_set,
          strip-tags new inferior ptm t,
          ap (mem t) elems_new,
          mem-from_list S t (snd_where (p ∷ []) ptm),
          mem-snd_where (p ∷ []) t ptm,
        );
        counts = sym (ap (λ (z : Store). z.tags) e) ∙ same.counts;
        family = sym (ap (λ (z : Store). z.parent_tags) e) ∙ same.family;
      }

  -- After the tags were moved the superior has a tag if it or an inferior had it, the inferiors
  -- have none, and every other post has those it had. The superior is not among the inferiors.
  pub has_row-move_tags :
      (p : ℕ) (inferior : List ℕ) (s s' : Store) (logs : List PostTagsLog)
      → mem p inferior ≡ false
      → move_tags S p inferior s ≡ ok (s', logs)
      → (post t : ℕ)
      → has_row post t s'.post_tag_mappings ≡ (
          if post == p
          then has_row p t s.post_tag_mappings || any_row inferior t s.post_tag_mappings
          else not (mem post inferior) && has_row post t s.post_tag_mappings)
  has_row-move_tags p inferior s s' logs out done post t =
      let m = move_tags-IsMoved p inferior s s' logs done in
      let ptm = s.post_tag_mappings in
      ground (
        arith,
        has_row-insert_tags unique_violation p m.new_tags (strip S new inferior ptm).1
            s'.post_tag_mappings post t m.inserted,
        m.chosen t,
        strip-rows new inferior ptm post t,
        out,
        ==_iff post p,
        λ (e : post ≡ p). ap (λ z. has_row z t ptm) e,
        λ (e : post ≡ p). ap (λ z. mem z inferior) e,
      )

  any_row-up :
      (par ptm : Table) (q c : ℕ) (posts : List ℕ)
      → IsUpgraded par ptm
      → has_row q c par ≡ true
      → any_row posts c ptm ≡ true
      → any_row posts q ptm ≡ true
  unfolding any_row
  any_row-up par ptm q c [] up edge h = cc
  any_row-up par ptm q c (x ∷ posts) up edge h =
      ground (arith, any_row-up par ptm q c posts up edge, up x q c edge, h)

  -- Moving tags keeps every post in possession of the parents of its tags.
  pub move_tags-IsUpgraded :
      (p : ℕ) (inferior : List ℕ) (s s' : Store) (logs : List PostTagsLog)
      → mem p inferior ≡ false
      → move_tags S p inferior s ≡ ok (s', logs)
      → IsUpgraded s.parent_tags s.post_tag_mappings
      → IsUpgraded s'.parent_tags s'.post_tag_mappings
  move_tags-IsUpgraded p inferior s s' logs out done up post q c edge has =
      let m = move_tags-IsMoved p inferior s s' logs done in
      let edge' : has_row q c s.parent_tags ≡ true = sym (ap (has_row q c) m.family) ∙ edge in
      let exact = has_row-move_tags p inferior s s' logs out done post in
      ground (
        arith,
        exact q,
        exact c,
        has,
        any_row-up s.parent_tags s.post_tag_mappings q c inferior up edge',
        up p q c edge',
        up post q c edge',
      )
