-- ===== src/Tags/Parent/Closure.antt =====
-- The tags of posts and their counts after `ParentTags` of DataManager/parent.go.
use pbooru.Prelude.{
  ℕ, ◌≡◌, refl, sym, ◌∙◌, ap, true, false, ◌&&◌, ◌||◌, List, [], ◌∷◌, some, arith, mem, ◌==◌,
  Bool-cases, inl, inr,
}
use mathlib.Core.Path.{subst}
use pbooru.Sets.{SetLib}
use pbooru.Database.{
  Table, has_row, fst_where, insert_rows, cross, has_row-cross, has_row-insert_rows,
}
use pbooru.Tags.Error.{ok, out_of_fuel, or_fail, >>=-eq-ok, or_fail-eq-ok}
use pbooru.Tags.Family.{aliased_to, aliases, upgrade}
use pbooru.Tags.Family.Ancestors.{start, up, mem-fst_where, fst_where_sound}
use pbooru.Tags.Store.{Store, count_posts, recount_rows, recount}
use pbooru.Tags.Store.Counts.{IsCounted, recount_rows-IsCounted, purge_count_cache-SameTags}
use pbooru.Tags.Alias.Resolution.{IsFlat, aliases_sound}
use pbooru.Tags.Alias.Posts.{count_posts-insert_rows}
use pbooru.Tags.Alias.Targets.{upgrade_roots}
use pbooru.Tags.Parent.{
  ParentLog, insert_parents_of, insert_family, insert_ancestors, write_family, parent_tags,
}

-- the posts with one of the children are the same while ancestors are inserted
fst_where-insert :
    (post g : ℕ) (cs : List ℕ) (ptm : Table)
    → mem post (fst_where cs (insert_rows (cross (fst_where cs ptm) (g ∷ [])) ptm))
      ≡ mem post (fst_where cs ptm)
fst_where-insert post g cs ptm =
    let ptm' = insert_rows (cross (fst_where cs ptm) (g ∷ [])) ptm in
    elim (Bool-cases (mem post (fst_where cs ptm))) [
      | inl had ↦
          let (c, row, m) = fst_where_sound post cs ptm had in
          mem-fst_where post c cs ptm'
            (ground (arith, has_row-insert_rows post c (cross (fst_where cs ptm) (g ∷ [])) ptm)) m
          ∙ sym had
      | inr lacked ↦ elim (Bool-cases (mem post (fst_where cs ptm'))) [
        | inl has ↦
            let (c, row, m) = fst_where_sound post cs ptm' has in
            absurd (
              ground (
                arith,
                has_row-insert_rows post c (cross (fst_where cs ptm) (g ∷ [])) ptm,
                has_row-cross post c (fst_where cs ptm) (g ∷ []),
                mem-fst_where post c cs ptm,
              ))
        | inr lacks ↦ lacks ∙ sym lacked
      ]
    ]

has_row-insert_ancestors :
    (post t : ℕ) (cs gs : List ℕ) (ptm : Table)
    → has_row post t (insert_ancestors cs gs ptm)
      ≡ (mem post (fst_where cs ptm) && mem t gs || has_row post t ptm)
unfolding insert_ancestors
has_row-insert_ancestors post t cs [] ptm = ground arith
has_row-insert_ancestors post t cs (g ∷ gs) ptm = ground (
  arith,
  has_row-insert_ancestors post t cs gs (insert_rows (cross (fst_where cs ptm) (g ∷ [])) ptm),
  fst_where-insert post g cs ptm,
  has_row-insert_rows post t (cross (fst_where cs ptm) (g ∷ [])) ptm,
  has_row-cross post t (fst_where cs ptm) (g ∷ []),
)

has_row-insert_parents_of :
    (p q c : ℕ) (ps : List ℕ) (rows rows' : Table)
    → insert_parents_of c ps rows ≡ ok rows'
    → has_row p q rows' ≡ (q == c && mem p ps || has_row p q rows)
unfolding insert_parents_of
has_row-insert_parents_of p q c [] rows rows' h = ground arith
has_row-insert_parents_of p q c (x ∷ ps) rows rows' h =
    ground (arith, has_row-insert_parents_of p q c ps ((x, c) ∷ rows) rows')

has_row-insert_family :
    (p q : ℕ) (cs ps : List ℕ) (rows rows' : Table)
    → insert_family cs ps rows ≡ ok rows'
    → has_row p q rows' ≡ (mem q cs && mem p ps || has_row p q rows)
unfolding insert_family
has_row-insert_family p q [] ps rows rows' h = ground arith
has_row-insert_family p q (c ∷ cs) ps rows rows' h =
    let (mid, e, h') = >>=-eq-ok (insert_parents_of c ps rows) _ h in
    ground (
      arith,
      has_row-insert_family p q cs ps mid rows' h',
      has_row-insert_parents_of p q c ps rows mid e,
    )

count_posts-insert_ancestors :
    (tag : ℕ) (cs gs : List ℕ) (ptm : Table)
    → mem tag gs ≡ false
    → count_posts tag (insert_ancestors cs gs ptm) ≡ count_posts tag ptm
unfolding insert_ancestors
count_posts-insert_ancestors tag cs [] ptm h = refl
count_posts-insert_ancestors tag cs (g ∷ gs) ptm h =
    count_posts-insert_ancestors tag cs gs _ (ground arith)
    ∙ count_posts-insert_rows tag (cross (fst_where cs ptm) (g ∷ [])) ptm
        (λ p. ground (arith, has_row-cross p tag (fst_where cs ptm) (g ∷ [])))

-- every post has the parents of its tags
abbrev pub IsUpgraded : Table → Table → Type 0
IsUpgraded par ptm =
    (post p c : ℕ) → has_row p c par ≡ true → has_row post c ptm ≡ true → has_row post p ptm ≡ true

module _ (S : SetLib) where
  open S use {Set, elems, diff, intersection, mem_diff, mem_intersection}

  record IsWritten (children ps grand : Set) (s s' : Store) : Type 0 where
    posts :
        s'.post_tag_mappings ≡ insert_ancestors (elems children) (elems grand) s.post_tag_mappings
    family :
        (p c : ℕ)
        → has_row p c s'.parent_tags
          ≡ (mem c (elems children) && mem p (elems ps) || has_row p c s.parent_tags)
    counts : s'.tags ≡ recount_rows (elems grand) s'.post_tag_mappings s.tags

  write_family_run :
      (children ps grand : Set) (s s' : Store) (log : ParentLog)
      → write_family S children ps grand s ≡ ok (s', log)
      → IsWritten children ps grand s s'
  unfolding write_family recount
  write_family_run children ps grand s s' log h =
      let (rows, e, h') = >>=-eq-ok (insert_family (elems children) (elems ps) s.parent_tags) _ h in
      let written = record s {
        parent_tags = rows;
        post_tag_mappings = insert_ancestors (elems children) (elems grand) s.post_tag_mappings;
      } in
      let same = purge_count_cache-SameTags (elems grand) (recount (elems grand) written) in
      record {
        posts = ground (arith, same.posts);
        family = λ p c. ground (
          arith,
          same.family,
          has_row-insert_family p c (elems children) (elems ps) s.parent_tags rows e,
        );
        counts = ground (arith, same.counts, same.posts);
      }

  record Run (children0 parents0 : Set) (s s' : Store) : Type 0 where
    grand : Set
    upgraded : upgrade S s.alias s.parent_tags (aliases S s.alias parents0) ≡ some grand
    written : IsWritten (aliases S s.alias children0) (aliases S s.alias parents0) grand s s'

  parent_tags_run :
      (children0 parents0 : Set) (s s' : Store) (log : ParentLog)
      → parent_tags S children0 parents0 s ≡ ok (s', log)
      → Run children0 parents0 s s'
  unfolding parent_tags
  parent_tags_run children0 parents0 s s' log h =
      let up_set =
        or_fail (upgrade S s.alias s.parent_tags (aliases S s.alias parents0)) out_of_fuel in
      let (grand, e, h') = >>=-eq-ok up_set _ h in
      record {
        grand = grand;
        upgraded = or_fail-eq-ok _ out_of_fuel e;
        written = write_family_run _ _ grand s s' log (ground arith);
      }

  module _ (children0 parents0 : Set) (s s' : Store) (log : ParentLog)
      (done : parent_tags S children0 parents0 s ≡ ok (s', log)) where
    run : Run children0 parents0 s s'
    run = parent_tags_run children0 parents0 s s' log done

    roots :
        IsFlat s.alias
        → (x : ℕ) → mem x (elems (aliases S s.alias parents0)) ≡ true
        → aliased_to s.alias x ≡ x
    roots flat x m =
        let (t, _, e) = aliases_sound S s.alias parents0 x m in
        ap (aliased_to s.alias) (sym e) ∙ flat t ∙ e

    -- With a flat alias table before it, a successful `ParentTags` keeps every post in possession of
    -- the parents of its tags, under the new parent relation.
    pub parent_tags-IsUpgraded :
        IsFlat s.alias
        → IsUpgraded s.parent_tags s.post_tag_mappings
        → IsUpgraded s'.parent_tags s'.post_tag_mappings
    parent_tags-IsUpgraded flat old post p c edge has =
        let cs = elems (aliases S s.alias children0) in
        let exact = upgrade_roots S s.alias s.parent_tags _ run.grand (roots flat) run.upgraded in
        let after = λ (t : ℕ).
          ap (has_row post t) run.written.posts
          ∙ has_row-insert_ancestors post t cs (elems run.grand) s.post_tag_mappings in
        let edge' = sym (run.written.family p c) ∙ edge in
        let has' = sym (after c) ∙ has in
        let given =
          λ (m : mem p (elems (aliases S s.alias parents0)) ≡ true). (exact p).1 (start m) in
        let above = λ (row : has_row p c s.parent_tags ≡ true) (m : mem c (elems run.grand) ≡ true).
          (exact p).1 (up ((exact c).0 m) row) in
        after p
        ∙ ground (
          arith,
          edge',
          has',
          given,
          above,
          old post p c,
          mem-fst_where post c cs s.post_tag_mappings,
        )

    -- A successful `ParentTags` keeps every tag's count equal to the number of its posts.
    pub parent_tags-IsCounted :
        IsCounted s.post_tag_mappings s.tags → IsCounted s'.post_tag_mappings s'.tags
    parent_tags-IsCounted counted =
        subst (IsCounted s'.post_tag_mappings) (sym run.written.counts) (
          recount_rows-IsCounted (elems run.grand) s.post_tag_mappings s'.post_tag_mappings s.tags
            (λ t out.
              ap (count_posts t) run.written.posts
              ∙ count_posts-insert_ancestors t (elems (aliases S s.alias children0))
                  (elems run.grand) s.post_tag_mappings out)
            counted)
