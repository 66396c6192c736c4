-- ===== src/Tags/Parent/Removal.antt =====
-- The parent rows after `UnparentTags` of DataManager/parent.go.
use pbooru.Prelude.{
  ℕ, ◌≡◌, sym, ◌∙◌, ap, true, false, not, ◌&&◌, ◌↔◌, some, arith, mem, keep, Bool-cases, inl, inr,
}
use pbooru.Sets.{SetLib}
use pbooru.Database.{fst, snd, has_row, has_row-keep}
use pbooru.Tags.Error.{ok, out_of_fuel, or_fail, >>=-eq-ok, or_fail-eq-ok}
use pbooru.Tags.Family.{parents}
use pbooru.Tags.Family.Ancestors.{Ancestry}
use pbooru.Tags.Family.Closure.{parents_exact}
use pbooru.Tags.Store.{Store}
use pbooru.Tags.Parent.{ParentLog, unparent_tags}

module _ (S : SetLib) where
  open S use {Set, elems, diff, intersection, mem_diff, mem_intersection}

  unparent_tags_run :
      (children parents0 : Set) (s s' : Store) (log : ParentLog)
      → unparent_tags S children parents0 s ≡ ok (s', log)
      → (family : Set) × (parents S s.parent_tags children ≡ some family)
        × ((p c : ℕ)
            → has_row p c s'.parent_tags ≡ (
                has_row p c s.parent_tags
                && not (
                    mem p (elems parents0)
                    && (mem p (elems family) && not (mem p (elems children)))
                    && mem c (elems children))))
        × (s'.post_tag_mappings ≡ s.post_tag_mappings)
        × (s'.alias ≡ s.alias)
        × (s'.tags ≡ s.tags)
  unfolding unparent_tags
  unparent_tags_run children parents0 s s' log h =
      let (family, e, h') =
        >>=-eq-ok (or_fail (parents S s.parent_tags children) out_of_fuel) _ h in
      let ps = intersection parents0 (diff family children) in
      let rows =
        keep (λ row. not (mem (fst row) (elems ps) && mem (snd row) (elems children)))
          s.parent_tags in
      let written : s'.parent_tags ≡ rows = ground arith in
      (
        family,
        or_fail-eq-ok _ out_of_fuel e,
        λ p c.
            ap (has_row p c) written
            ∙ has_row-keep (λ row. not (mem (fst row) (elems ps) && mem (snd row) (elems children)))
                p c s.parent_tags
            ∙ ground (
              arith,
              mem_intersection p parents0 (diff family children),
              mem_diff p family children,
            ),
        ground arith,
        ground arith,
        ground arith,
      )

  -- A successful `UnparentTags` takes away exactly the rows between one of the children and one of
  -- the given parents that is an ancestor of a child and no child itself; the tags of posts, the
  -- aliases and the counts stay.
  pub unparent_tags_exact :
      (children parents0 : Set) (s s' : Store) (log : ParentLog)
      → unparent_tags S children parents0 s ≡ ok (s', log)
      → ((p c : ℕ)
          → (has_row p c s'.parent_tags ≡ true) ↔ (
              (has_row p c s.parent_tags ≡ true)
              × ¬ (
                  (mem c (elems children) ≡ true)
                  × (mem p (elems parents0) ≡ true)
                  × (mem p (elems children) ≡ false)
                  × Ancestry s.parent_tags (elems children) p)))
        × (s'.post_tag_mappings ≡ s.post_tag_mappings)
        × (s'.alias ≡ s.alias)
        × (s'.tags ≡ s.tags)
  unparent_tags_exact children parents0 s s' log h =
      let (family, e, row, posts, aliased, counts) =
        unparent_tags_run children parents0 s s' log h in
      let (family', e', exact) = parents_exact S s.parent_tags children in
      let same : family' ≡ family = cc in
      let above = λ (p : ℕ) (m : mem p (elems family) ≡ true).
        (exact p).0 (ap (λ z. mem p (elems z)) same ∙ m) in
      let below = λ (p : ℕ) (a : Ancestry s.parent_tags (elems children) p).
        sym (ap (λ z. mem p (elems z)) same) ∙ (exact p).1 a in
      (
        λ p c. (
          λ has. (ground (arith, row p c), λ (mc, mp, n, a). ground (arith, row p c, below p a)),
          λ (had, free). elim (Bool-cases (has_row p c s'.parent_tags)) [
            | inl has ↦ has
            | inr lost ↦ absurd (
                free (
                  ground (arith, row p c),
                  ground (arith, row p c),
                  ground (arith, row p c),
                  above p (ground (arith, row p c)),
                ))
          ],
        ),
        posts,
        aliased,
        counts,
      )
