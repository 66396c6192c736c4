-- ===== src/Tags/Alias/Parents.antt =====
-- What `AliasTags` does to the parents of tags.
use pbooru.Prelude.{
  ℕ, ◌≡◌, sym, ◌∙◌, ap, true, false, not, ◌&&◌, ◌||◌, List, [], ◌∷◌, ◌≢◌, arith, mem, ◌==◌, ==_refl,
  ==_iff,
}
use pbooru.Sets.{SetLib}
use pbooru.Database.{
  Table, has_row, fst_where, snd_where, insert_rows, has_row-keep, has_row-insert_rows,
}
use pbooru.Tags.Error.{ok}
use pbooru.Tags.Family.Ancestors.{mem-fst_where}
use pbooru.Tags.Store.{Store}
use pbooru.Tags.Alias.{AliasLog, inherited, is_stale, alias_tags}
use pbooru.Tags.Alias.Run.{Run, alias_tags_run}
use pbooru.Tags.Alias.Resolution.{target-fresh}
use pbooru.Tags.Alias.Posts.{row_after}

has_row-inherited :
    (p c : ℕ) (from : List ℕ) (to : ℕ) (par : Table)
    → has_row p c (inherited from to par)
      ≡ (c == to && mem p (fst_where from par) || p == to && mem c (snd_where from par))
unfolding inherited fst_where snd_where
has_row-inherited p c from to [] = ground arith
has_row-inherited p c from to ((x, y) ∷ par) = ground (arith, has_row-inherited p c from to par)

module _ (S : SetLib) where
  open S use {Set, elems}

  module _ (fromts tots : Set) (s s' : Store) (log : AliasLog)
      (done : alias_tags S fromts tots s ≡ ok (s', log)) where
    run : Run S fromts tots s s' log
    run = alias_tags_run S fromts tots s s' log done

    -- After a successful `AliasTags` the rows of `parent_tags` are those whose parent and child are
    -- different and not aliased, and which were there before, or make the target a child of a parent
    -- of an aliased tag, or a parent of a child of an aliased tag.
    pub alias_tags-parents :
        (p c : ℕ)
        → has_row p c s'.parent_tags ≡ (
            (c == log.to && mem p (fst_where log.from s.parent_tags)
              || p == log.to && mem c (snd_where log.from s.parent_tags)
              || has_row p c s.parent_tags)
            && not (p == c || mem c log.from || mem p log.from))
    alias_tags-parents p c =
        let table = insert_rows (inherited (elems run.from) log.to s.parent_tags) s.parent_tags in
        ap (has_row p c) run.written.family
        ∙ has_row-keep (λ row. not (is_stale (elems run.from) row)) p c table
        ∙ ap (λ b. b && not (p == c || mem c (elems run.from) || mem p (elems run.from)))
            (ground (
              arith,
              has_row-insert_rows p c (inherited (elems run.from) log.to s.parent_tags)
                  s.parent_tags,
              has_row-inherited p c (elems run.from) log.to s.parent_tags,
            ))
        ∙ ap
            (λ f.
              (c == log.to && mem p (fst_where f s.parent_tags)
                || p == log.to && mem c (snd_where f s.parent_tags)
                || has_row p c s.parent_tags)
              && not (p == c || mem c f || mem p f))
            (sym run.from_log)

    -- A post that had the target and none of the aliased tags is not given the parents that the
    -- target inherits: if the table makes `q` a parent of an aliased tag `f`, and the post lacks
    -- `q`, then after the call `q` is a parent of the target, the post has the target, and still
    -- lacks `q`.
    pub alias_tags_gap :
        (post q f : ℕ)
        → mem f log.from ≡ true
        → has_row q f s.parent_tags ≡ true
        → mem q log.from ≡ false
        → q ≢ log.to
        → has_row post log.to s.post_tag_mappings ≡ true
        → mem post (fst_where log.from s.post_tag_mappings) ≡ false
        → has_row post q s.post_tag_mappings ≡ false
        → (has_row q log.to s'.parent_tags ≡ true)
          × (has_row post log.to s'.post_tag_mappings ≡ true)
          × (has_row post q s'.post_tag_mappings ≡ false)
    alias_tags_gap post q f hf row hq ne had none' lacks = (
      ground (
        arith,
        alias_tags-parents q log.to,
        mem-fst_where q f log.from s.parent_tags row hf,
        target-fresh S fromts tots s s' log done,
        ==_refl log.to,
        ==_iff q log.to,
      ),
      ground (
        arith,
        row_after S fromts tots s s' log done post log.to,
        target-fresh S fromts tots s s' log done,
      ),
      ground (arith, row_after S fromts tots s s' log done post q),
    )
