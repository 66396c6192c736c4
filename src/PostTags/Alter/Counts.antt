-- ===== src/PostTags/Alter/Counts.antt =====
-- The counts of tags after `AlterPostTags` of DataManager/post_tags.go.
use mathlib.Core.Path.{subst}
use pbooru.Prelude.{ℕ, List, mem, Option, ◌≡◌, true, ok, ap, inl, sym, arith, ◌∙◌, inr}
use pbooru.Sets.{SetLib, IsDistinct}
use pbooru.Database.{has_row}
use pbooru.Tags.Error.{unique_violation}
use pbooru.Tags.Store.{Store}
use pbooru.Tags.Store.Counts.{IsCounted}
use pbooru.PostTags.{PostTagsLog, count_up, delete_tags}
use pbooru.PostTags.Statements.{
  IsUnique, delete_tags-IsUnique, insert_tags-IsUnique, count_posts-delete_tags,
  count_posts-insert_tags, has_row-count_up, has_row-count_down,
}
use pbooru.PostTags.Alter.{alter_post_tags}
use pbooru.PostTags.Alter.Run.{IsWritten, add_of, alter_post_tags_run, held, mem-held, remove_of}
use pbooru.PostTags.Alter.Texts.{mem-post, to_add-IsDistinct, to_remove-IsDistinct}
use pbooru.Tags.TextSets.{TextSets}
use pbooru.Text.{Text}

written-IsCounted :
    (p : ℕ) (add remove : List ℕ) (s s' : Store)
    → IsDistinct add
    → IsDistinct remove
    → ((t : ℕ) → mem t remove ≡ true → has_row p t s.post_tag_mappings ≡ true)
    → IsUnique s.post_tag_mappings
    → IsWritten p add remove s s'
    → IsCounted s.post_tag_mappings s.tags
    → IsCounted s'.post_tag_mappings s'.tags
written-IsCounted p add remove s s' da dr held unique w counted id m r =
    let up = count_up add s.tags in
    let kept = delete_tags p remove s.post_tag_mappings in
    let (n1, r1, e1) =
      has_row-count_down remove id m up dr (ap (has_row id m) (sym w.counts) ∙ r) in
    let (n0, r0, e0) = has_row-count_up add id n1 s.tags da r1 in
    ground (
      arith,
      e1,
      e0,
      counted id n0 r0,
      held id,
      count_posts-delete_tags p remove id s.post_tag_mappings unique,
      count_posts-insert_tags unique_violation p add id kept s'.post_tag_mappings w.inserted,
    )

module _ (S : SetLib) (T : TextSets) (names : ℕ → Text × Text) where
  -- If no post has a tag twice, altering the tags of a post keeps every tag's count equal to the number
  -- of its posts, and no post has a tag twice after it. Tags that print alike are allowed.
  pub alter_post_tags-IsCounted :
      (p : ℕ) (named : S.Set) (base : T.Set) (s s' : Store) (log : Option PostTagsLog)
      → alter_post_tags S T names p named base s ≡ ok (s', log)
      → IsUnique s.post_tag_mappings
      → IsCounted s.post_tag_mappings s.tags
      → IsCounted s'.post_tag_mappings s'.tags × IsUnique s'.post_tag_mappings
  alter_post_tags-IsCounted p named base s s' log done unique counted =
      let run = alter_post_tags_run S T names p named base s s' log done in
      let tags = S.elems run.tags in
      let post = held S T names p named base s in
      let add = add_of S T names p named base s run.tags in
      let remove = remove_of S T names p named base s run.tags in
      elim run.done [
        | inl w ↦ (
          written-IsCounted p add remove s s' (to_add-IsDistinct names T tags post base)
              (to_remove-IsDistinct names T tags post base)
              (λ t m.
                sym (mem-held S T names p named base s t) ∙ mem-post names T tags post base t m)
              unique w counted,
          insert_tags-IsUnique unique_violation p add (delete_tags p remove s.post_tag_mappings)
              s'.post_tag_mappings w.inserted
              (delete_tags-IsUnique p remove s.post_tag_mappings unique),
        )
        | inr (same, _, _) ↦ (
          subst (λ (z : Store). IsCounted z.post_tag_mappings z.tags) (sym same) counted,
          subst (λ (z : Store). IsUnique z.post_tag_mappings) (sym same) unique,
        )
      ]
