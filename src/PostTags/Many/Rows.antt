-- ===== src/PostTags/Many/Rows.antt =====
-- The tags of posts and the counts of tags after `AlterManyPostTags` of DataManager/post_tags.go.
use pbooru.Prelude.{
  ℕ, List, ◌≡◌, mem, true, ◌&&◌, ◌+◌, false, arith, ◌||◌, not, if◌then◌else◌, ◌<◌, keep, ◌∷◌,
  ==_iff, ◌==◌, ap, ◌∙◌, [], refl, ◌≤◌, >>=-eq-ok, Bool-cases, inl, inr, is_empty, ok, or_fail,
  or_fail-eq-ok, some, sym,
}
use pbooru.Database.{
  Table, fst, snd, has_row, has_key, insert_row, insert_rows, cross, has_row-cross,
  has_row-insert_rows, has_row-keep, has_row-insert_row,
}
use pbooru.Tags.Store.Counts.{IsCounted}
use pbooru.Tags.Store.{count_posts}
use pbooru.PostTags.Many.{
  posts_in, add_to_posts, remove_from_posts, SetLib, Store, alter_many_post_tags, upgrade, MultiLog,
  out_of_fuel,
}

mem-posts_in :
    (p : ℕ) (pids : List ℕ) (ptm : Table)
    → mem p (posts_in pids ptm) ≡ (mem p pids && has_key p ptm)
unfolding posts_in has_key
mem-posts_in p pids [] = ground arith
mem-posts_in p pids ((x, t) ∷ ptm) =
    ground (arith, mem-posts_in p pids ptm, ==_iff p x, λ (e : p ≡ x). ap (λ z. mem z pids) e)

has_row-key : (p t : ℕ) (ptm : Table) → has_row p t ptm ≡ true → has_key p ptm ≡ true
unfolding has_key
has_row-key p t [] h = cc
has_row-key p t ((x, k) ∷ ptm) h = ground (arith, has_row-key p t ptm)

has_row-add_to_posts :
    (pids add : List ℕ) (ptm : Table) (p t : ℕ)
    → has_row p t (add_to_posts pids add ptm).0
      ≡ (mem p pids && has_key p ptm && mem t add || has_row p t ptm)
unfolding add_to_posts
has_row-add_to_posts pids [] ptm p t = ground arith
has_row-add_to_posts pids (k ∷ add) ptm p t = ground (
  arith,
  has_row-insert_rows p t (cross (posts_in pids ptm) (k ∷ add)) ptm,
  has_row-cross p t (posts_in pids ptm) (k ∷ add),
  mem-posts_in p pids ptm,
)

has_row-remove_from_posts :
    (pids remove : List ℕ) (ptm : Table) (p t : ℕ)
    → has_row p t (remove_from_posts pids remove ptm).0
      ≡ (has_row p t ptm && not (mem p pids && mem t remove))
unfolding remove_from_posts
has_row-remove_from_posts pids [] ptm p t = ground arith
has_row-remove_from_posts pids (k ∷ remove) ptm p t =
    let del = cross (posts_in pids ptm) (k ∷ remove) in
    ground (
      arith,
      has_row-keep (λ row. not (has_row (fst row) (snd row) del)) p t ptm,
      has_row-cross p t (posts_in pids ptm) (k ∷ remove),
      mem-posts_in p pids ptm,
      has_row-key p t ptm,
    )

count_posts-insert_row :
    (p t id : ℕ) (ptm : Table)
    → count_posts id (insert_row p t ptm)
      ≡ count_posts id ptm + (if id == t && not (has_row p t ptm) then 1 else 0)
unfolding insert_row count_posts
count_posts-insert_row p t id ptm = ground arith

count_posts-insert_rows_le :
    (rows ptm : Table) (id : ℕ) → count_posts id ptm ≤ count_posts id (insert_rows rows ptm)
unfolding insert_rows
count_posts-insert_rows_le [] ptm id = ground arith
count_posts-insert_rows_le ((p, t) ∷ rows) ptm id = ground (
  arith,
  count_posts-insert_rows_le rows (insert_row p t ptm) id,
  count_posts-insert_row p t id ptm,
)

-- a row that was not there raises the count
count_posts-insert_rows_lt :
    (rows ptm : Table) (post id : ℕ)
    → has_row post id rows ≡ true
    → has_row post id ptm ≡ false
    → count_posts id ptm < count_posts id (insert_rows rows ptm)
unfolding insert_rows
count_posts-insert_rows_lt [] ptm post id new' old = cc
count_posts-insert_rows_lt ((p, t) ∷ rows) ptm post id new' old = ground (
  arith,
  count_posts-insert_rows_le rows (insert_row p t ptm) id,
  count_posts-insert_rows_lt rows (insert_row p t ptm) post id,
  count_posts-insert_row p t id ptm,
  has_row-insert_row post id p t ptm,
  ==_iff post p,
  ==_iff id t,
  λ (e : post ≡ p) (e' : id ≡ t). ap (λ z. has_row post z ptm) e' ∙ ap (λ z. has_row z t ptm) e,
)

-- the rows of a tag that is not removed are kept
count_posts-keep :
    (del : Table) (id : ℕ) (ptm : Table)
    → ((p : ℕ) → has_row p id del ≡ false)
    → count_posts id (keep (λ row. not (has_row (fst row) (snd row) del)) ptm) ≡ count_posts id ptm
unfolding count_posts
count_posts-keep del id [] out = refl
count_posts-keep del id ((x, t) ∷ ptm) out = ground (
  arith,
  count_posts-keep del id ptm out,
  out x,
  ==_iff id t,
  λ (e : id ≡ t). ap (λ z. has_row x z del) e,
)

count_posts-add_to_posts :
    (pids add : List ℕ) (ptm : Table) (post id : ℕ)
    → mem post pids ≡ true
    → has_key post ptm ≡ true
    → mem id add ≡ true
    → has_row post id ptm ≡ false
    → count_posts id ptm < count_posts id (add_to_posts pids add ptm).0
unfolding add_to_posts
count_posts-add_to_posts pids [] ptm post id mp k ma lacks = cc
count_posts-add_to_posts pids (x ∷ add) ptm post id mp k ma lacks =
    count_posts-insert_rows_lt (cross (posts_in pids ptm) (x ∷ add)) ptm post id
      (ground
        (arith, has_row-cross post id (posts_in pids ptm) (x ∷ add), mem-posts_in post pids ptm))
      lacks

count_posts-remove_from_posts :
    (pids remove : List ℕ) (ptm : Table) (id : ℕ)
    → mem id remove ≡ false
    → count_posts id (remove_from_posts pids remove ptm).0 ≡ count_posts id ptm
unfolding remove_from_posts
count_posts-remove_from_posts pids [] ptm id out = refl
count_posts-remove_from_posts pids (k ∷ remove) ptm id out =
    count_posts-keep (cross (posts_in pids ptm) (k ∷ remove)) id ptm
      (λ p. ground (arith, has_row-cross p id (posts_in pids ptm) (k ∷ remove), out))

module _ (S : SetLib) where
  open S use {Set, elems, diff, mem_diff}

  record Run (pids : List ℕ) (named unwanted : Set) (s s' : Store) : Type 0 where
    add : Set
    upgraded : upgrade S s.alias s.parent_tags named ≡ some add
    rows :
        s'.post_tag_mappings
        ≡ (remove_from_posts pids
            (elems (diff unwanted add))
            (add_to_posts pids (elems add) s.post_tag_mappings).0).0
    counts : s'.tags ≡ s.tags

  alter_many_run :
      (pids : List ℕ) (named unwanted : Set) (s s' : Store) (logs : List MultiLog)
      → alter_many_post_tags S pids named unwanted s ≡ ok (s', logs)
      → Run pids named unwanted s s'
  unfolding alter_many_post_tags
  alter_many_run pids named unwanted s s' logs h =
      let (add, e, h1) =
        >>=-eq-ok (or_fail (upgrade S s.alias s.parent_tags named) out_of_fuel) _ h in
      elim (Bool-cases
        (is_empty pids || is_empty (elems add) && is_empty (elems (diff unwanted add)))) [
          | inl none' ↦ absurd (ground (arith, h1, none'))
          | inr some' ↦ record {
            add = add;
            upgraded = or_fail-eq-ok _ out_of_fuel e;
            rows = ground (arith, h1, some');
            counts = ground (arith, h1, some');
          }
        ]

  -- Altering the tags of several posts gives the new tags, upgraded, to the listed posts that have
  -- a tag at all, and takes the unwanted tags that are not new from the listed posts. Every other
  -- row stays.
  pub alter_many_post_tags-rows :
      (pids : List ℕ) (named unwanted : Set) (s s' : Store) (logs : List MultiLog)
      → alter_many_post_tags S pids named unwanted s ≡ ok (s', logs)
      → (add : Set) × (upgrade S s.alias s.parent_tags named ≡ some add)
        × ((post t : ℕ)
            → has_row post t s'.post_tag_mappings ≡ (
                if mem post pids
                then mem t (elems add) && has_key post s.post_tag_mappings
                  || has_row post t s.post_tag_mappings
                    && (mem t (elems add) || not (mem t (elems unwanted)))
                else has_row post t s.post_tag_mappings))
  alter_many_post_tags-rows pids named unwanted s s' logs h =
      let r = alter_many_run pids named unwanted s s' logs h in
      let grown = (add_to_posts pids (elems r.add) s.post_tag_mappings).0 in
      (
        r.add,
        r.upgraded,
        λ post t.
            ap (has_row post t) r.rows
            ∙ ground (
              arith,
              has_row-remove_from_posts pids (elems (diff unwanted r.add)) grown post t,
              has_row-add_to_posts pids (elems r.add) s.post_tag_mappings post t,
              mem_diff t unwanted r.add,
              has_row-key post t s.post_tag_mappings,
            ),
      )

  -- If the counts are right and a listed post that has some tag is given a new one, whose count the
  -- table of tags holds, then the counts are wrong after the tags of several posts were altered.
  pub alter_many_post_tags_stale :
      (pids : List ℕ) (named unwanted add : Set) (s s' : Store) (logs : List MultiLog)
      (post t n : ℕ)
      → alter_many_post_tags S pids named unwanted s ≡ ok (s', logs)
      → upgrade S s.alias s.parent_tags named ≡ some add
      → mem post pids ≡ true
      → has_key post s.post_tag_mappings ≡ true
      → mem t (elems add) ≡ true
      → has_row post t s.post_tag_mappings ≡ false
      → has_row t n s.tags ≡ true
      → IsCounted s.post_tag_mappings s.tags
      → ¬ IsCounted s'.post_tag_mappings s'.tags
  alter_many_post_tags_stale pids named unwanted add s s' logs post t n h u listed some' new' lacks
        row counted after =
      let r = alter_many_run pids named unwanted s s' logs h in
      let same : some r.add ≡ some add = sym r.upgraded ∙ u in
      let same' : r.add ≡ add = ground (arith, same) in
      let added : mem t (elems r.add) ≡ true = ap (λ z. mem t (elems z)) same' ∙ new' in
      let grown = (add_to_posts pids (elems r.add) s.post_tag_mappings).0 in
      ground (
        arith,
        counted t n row,
        after t n (ap (has_row t n) r.counts ∙ row),
        ap (count_posts t) r.rows,
        count_posts-remove_from_posts pids (elems (diff unwanted r.add)) grown t
            (ground (arith, mem_diff t unwanted r.add, added)),
        count_posts-add_to_posts pids (elems r.add) s.post_tag_mappings post t listed some' added
            lacks,
      )
