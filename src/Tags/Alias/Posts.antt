-- ===== src/Tags/Alias/Posts.antt =====
-- What `AliasTags` does to the tags of posts and to their counts.
use pbooru.Prelude.{
  ℕ, ◌≡◌, refl, sym, ◌∙◌, ap, false, not, ◌&&◌, ◌||◌, List, [], ◌∷◌, arith, mem, keep, ==_refl,
  ==_iff,
}
use mathlib.Core.Path.{subst}
use pbooru.Sets.{SetLib}
use pbooru.Database.{
  Table, snd, has_row, fst_where, cross, insert_row, insert_rows, has_row-keep, has_row-cross,
  has_row-insert_rows,
}
use pbooru.Tags.Error.{ok}
use pbooru.Tags.Store.{Store, count_posts}
use pbooru.Tags.Store.Counts.{IsCounted, recount_rows-IsCounted}
use pbooru.Tags.Alias.{AliasLog, move_posts, alias_tags}
use pbooru.Tags.Alias.Run.{Run, alias_tags_run}

pub count_posts-insert_rows :
    (tag : ℕ) (rows ptm : Table)
    → ((p : ℕ) → has_row p tag rows ≡ false)
    → count_posts tag (insert_rows rows ptm) ≡ count_posts tag ptm
unfolding count_posts insert_rows insert_row
count_posts-insert_rows tag [] ptm h = refl
count_posts-insert_rows tag ((a, b) ∷ rows) ptm h = ground (
  arith,
  count_posts-insert_rows tag rows (insert_row a b ptm) (λ p. ground (arith, h p)),
  h a,
  ==_refl a,
)

module _ (S : SetLib) where
  open S use {Set, elems, new, add, union, diff, elems_new, mem_add, mem_union, mem_diff}

  pub has_row-move_posts :
      (from tos : List ℕ) (p t : ℕ) (ptm : Table)
      → has_row p t (move_posts S from tos ptm)
        ≡ ((mem p (fst_where from ptm) && mem t tos || has_row p t ptm) && not (mem t from))
  unfolding move_posts
  has_row-move_posts from tos p t ptm = ground (
    arith,
    has_row-keep (λ row. not (mem (snd row) from)) p t
        (insert_rows (cross (fst_where from ptm) tos) ptm),
    has_row-insert_rows p t (cross (fst_where from ptm) tos) ptm,
    has_row-cross p t (fst_where from ptm) tos,
  )

  count_posts-keep :
      (tag : ℕ) (from : List ℕ) (ptm : Table)
      → mem tag from ≡ false
      → count_posts tag (keep (λ row. not (mem (snd row) from)) ptm) ≡ count_posts tag ptm
  unfolding count_posts
  count_posts-keep tag from [] h = refl
  count_posts-keep tag from ((a, b) ∷ ptm) h = ground (
    arith,
    count_posts-keep tag from ptm h,
    ==_iff tag b,
    λ (e : tag ≡ b). ap (λ z. mem z from) e,
  )

  count_posts-move_posts :
      (from tos : List ℕ) (tag : ℕ) (ptm : Table)
      → (mem tag tos || mem tag from) ≡ false
      → count_posts tag (move_posts S from tos ptm) ≡ count_posts tag ptm
  unfolding move_posts
  count_posts-move_posts from tos tag ptm h =
      count_posts-keep tag from _ (ground arith)
      ∙ count_posts-insert_rows tag (cross (fst_where from ptm) tos) ptm
          (λ p. ground (arith, has_row-cross p tag (fst_where from ptm) tos))

  module _ (fromts tots : Set) (s s' : Store) (log : AliasLog)
      (done : alias_tags S fromts tots s ≡ ok (s', log)) where
    pub run : Run S fromts tots s s' log
    run = alias_tags_run S fromts tots s s' log done

    pub row_after :
        (p t : ℕ)
        → has_row p t s'.post_tag_mappings ≡ (
            (mem p (fst_where log.from s.post_tag_mappings) && mem t (elems run.tos)
              || has_row p t s.post_tag_mappings)
            && not (mem t log.from))
    row_after p t =
        ap (has_row p t) run.written.posts
        ∙ has_row-move_posts (elems run.from) (elems run.tos) p t s.post_tag_mappings
        ∙ ap
            (λ f.
              (mem p (fst_where f s.post_tag_mappings) && mem t (elems run.tos)
                || has_row p t s.post_tag_mappings)
              && not (mem t f))
            (sym run.from_log)

    -- A successful `AliasTags` keeps every tag's count equal to the number of its posts.
    pub alias_tags-IsCounted :
        IsCounted s.post_tag_mappings s.tags → IsCounted s'.post_tag_mappings s'.tags
    alias_tags-IsCounted counted = subst (IsCounted s'.post_tag_mappings) (sym run.written.counts) (
        recount_rows-IsCounted (elems (union run.tos run.from)) s.post_tag_mappings
          s'.post_tag_mappings s.tags
          (λ t out.
            ap (count_posts t) run.written.posts
            ∙ count_posts-move_posts (elems run.from) (elems run.tos) t s.post_tag_mappings
                (sym (mem_union t run.tos run.from) ∙ out))
          counted)
