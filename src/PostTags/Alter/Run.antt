-- ===== src/PostTags/Alter/Run.antt =====
-- The tags of the post after `AlterPostTags` of DataManager/post_tags.go.
use pbooru.Prelude.{
  ==_iff, >>=-eq-ok, Bool-cases, List, Option, [], ap, arith, false, if◌then◌else◌, inl, inr,
  is_empty, mem, none, not, ok, refl, some, true, ℕ, ◌&&◌, ◌==◌, ◌||◌, ◌∙◌, ◌∷◌, ◌≡◌, ◌⊎◌,
}
use pbooru.Text.{Text}
use pbooru.Sets.{IsDistinct, SetLib, from_list, mem-from_list}
use pbooru.Database.{Table, has_row, mem-snd_where, snd_where}
use pbooru.Tags.Error.{or_fail, or_fail-eq-ok, out_of_fuel, unique_violation}
use pbooru.Tags.Family.{aliases, upgrade}
use pbooru.Tags.Family.Closure.{parents_exact}
use pbooru.Tags.Store.{Store, purge_count_cache}
use pbooru.Tags.Store.Counts.{purge_count_cache-SameTags}
use pbooru.Tags.TextSets.{TextSets, has_text}
use pbooru.PostTags.{
  PostTagsLog, clear_empty_search_count_cache, count_down, count_up, delete_tags, insert_tags,
}
use pbooru.PostTags.Statements.{has_row-delete_tags, has_row-insert_tags, insert_tags_total}
use pbooru.PostTags.Alter.{alter_post_tags, finish, to_add, to_remove, ts, write_tags}
use pbooru.PostTags.Alter.Texts.{AreReadable, mem-to_add, mem-to_remove, text, to_add-IsDistinct}

-- is_empty reads the same tags as mem
is_empty-mem : (xs : List ℕ) (x : ℕ) → is_empty xs ≡ true → mem x xs ≡ false
is_empty-mem [] x e = refl
is_empty-mem (y ∷ xs) x e = cc

-- what the statements leave
pub record IsWritten (p : ℕ) (add remove : List ℕ) (s s' : Store) : Type 0 where
  pub inserted :
      insert_tags unique_violation p add (delete_tags p remove s.post_tag_mappings)
      ≡ ok s'.post_tag_mappings
  pub counts : s'.tags ≡ count_down remove (count_up add s.tags)
  pub family : s'.parent_tags ≡ s.parent_tags
  pub aliased : s'.alias ≡ s.alias

write_tags_run :
    (p : ℕ) (add remove : List ℕ) (s s' : Store) (log : Option PostTagsLog)
    → write_tags p add remove s ≡ ok (s', log)
    → IsWritten p add remove s s'
unfolding write_tags finish clear_empty_search_count_cache
write_tags_run p add remove s s' log h =
    let (rows, i, h1) =
      >>=-eq-ok (insert_tags unique_violation p add (delete_tags p remove s.post_tag_mappings)) _
        h in
    let s1 : Store = record s { post_tag_mappings = rows; tags = count_up add s.tags } in
    let same1 = purge_count_cache-SameTags add s1 in
    let s2 = purge_count_cache add s1 in
    let s3 : Store = record s2 { tags = count_down remove s2.tags } in
    let same3 = purge_count_cache-SameTags remove s3 in
    record {
      inserted = ground (arith, i, h1, same1.posts, same3.posts);
      counts = ground (arith, h1, same1.counts, same3.counts);
      family = ground (arith, h1, same1.family, same3.family);
      aliased = ground (arith, h1, same1.aliased, same3.aliased);
    }

write_tags_total :
    (p : ℕ) (add remove : List ℕ) (s : Store)
    → IsDistinct add
    → ((t : ℕ) → mem t add ≡ true → has_row p t s.post_tag_mappings ≡ false)
    → (s' : Store) × (log : Option PostTagsLog) × (write_tags p add remove s ≡ ok (s', log))
unfolding write_tags
write_tags_total p add remove s d out =
    let kept = delete_tags p remove s.post_tag_mappings in
    let (rows, i) =
      insert_tags_total unique_violation p add kept d
        (λ t m. ground (arith, has_row-delete_tags p remove s.post_tag_mappings p t, out t m)) in
    let out' = finish p add remove s rows in (out'.0, out'.1, ground (arith, i))

module _ (S : SetLib) (T : TextSets) (names : ℕ → Text × Text) where
  open S use {Set, elems}

  upgrade_total :
      (alias par : Table) (set : Set) → (tags : Set) × (upgrade S alias par set ≡ some tags)
  unfolding upgrade
  upgrade_total alias par set = let (r, e, _) = parents_exact S par (aliases S alias set) in (r, e)

  module _ (p : ℕ) (named : Set) (base : T.Set) (s : Store) where
    -- the tags of the post
    abbrev pub held : List ℕ
    held = elems (from_list S (snd_where (p ∷ []) s.post_tag_mappings))

    abbrev pub add_of : Set → List ℕ
    add_of tags = to_add T (ts T names (elems tags)) base (ts T names held)

    abbrev pub remove_of : Set → List ℕ
    remove_of tags = to_remove T (ts T names (elems tags)) base (ts T names held)

    pub mem-held : (t : ℕ) → mem t held ≡ has_row p t s.post_tag_mappings
    mem-held t =
        mem-from_list S t (snd_where (p ∷ []) s.post_tag_mappings)
        ∙ mem-snd_where p t s.post_tag_mappings

    -- a run either writes or has nothing to do
    pub record Run (s' : Store) : Type 0 where
      pub tags : Set
      pub upgraded : upgrade S s.alias s.parent_tags named ≡ some tags
      pub done :
          IsWritten p (add_of tags) (remove_of tags) s s'
          ⊎ (s' ≡ s) × (is_empty (add_of tags) ≡ true) × (is_empty (remove_of tags) ≡ true)

    pub alter_post_tags_run :
        (s' : Store) (log : Option PostTagsLog)
        → alter_post_tags S T names p named base s ≡ ok (s', log)
        → Run s'
    unfolding alter_post_tags
    alter_post_tags_run s' log h =
        let (tags, e, h1) =
          >>=-eq-ok (or_fail (upgrade S s.alias s.parent_tags named) out_of_fuel) _ h in
        record {
          tags = tags;
          upgraded = or_fail-eq-ok _ out_of_fuel e;
          done = elim (Bool-cases (is_empty (add_of tags) && is_empty (remove_of tags))) [
            | inl none' ↦
                inr (ground (arith, h1, none'), ground (arith, none'), ground (arith, none'))
            | inr some' ↦ inl (
                write_tags_run p (add_of tags) (remove_of tags) s s' log
                  (ground (arith, h1, some')))
          ];
        }

    -- the tags of every post after a run
    has_row-alter :
        (s' : Store) (r : Run s') (post t : ℕ)
        → AreReadable names
        → has_row post t s'.post_tag_mappings ≡ (
            if post == p
            then mem t (elems r.tags) && not (has_text (text names t) (T.elems base))
              || has_row p t s.post_tag_mappings
                && (mem t (elems r.tags) || not (has_text (text names t) (T.elems base)))
            else has_row post t s.post_tag_mappings)
    has_row-alter s' r post t inj =
        let row = λ (e : post ≡ p). ap (λ z. has_row z t s.post_tag_mappings) e in
        let in_add = mem-to_add names T (elems r.tags) held base t inj in
        let in_remove = mem-to_remove names T (elems r.tags) held base t inj in
        elim r.done [
          | inl w ↦ ground (
            arith,
            has_row-insert_tags unique_violation p (add_of r.tags)
                (delete_tags p (remove_of r.tags) s.post_tag_mappings) s'.post_tag_mappings post t
                w.inserted,
            has_row-delete_tags p (remove_of r.tags) s.post_tag_mappings post t,
            in_add,
            in_remove,
            mem-held t,
            ==_iff post p,
            row,
          )
          | inr (same, no_add, no_remove) ↦ ground (
            arith,
            same,
            ap (λ (z : Store). has_row post t z.post_tag_mappings) same,
            is_empty-mem (add_of r.tags) t no_add,
            is_empty-mem (remove_of r.tags) t no_remove,
            in_add,
            in_remove,
            mem-held t,
            ==_iff post p,
            row,
          )
        ]

    alter_post_tags_total :
        AreReadable names
        → (s' : Store) × (log : Option PostTagsLog) × (alter_post_tags S T names p named base s
            ≡ ok (s', log))
    unfolding alter_post_tags
    alter_post_tags_total inj =
        let (tags, u) = upgrade_total s.alias s.parent_tags named in
        elim (Bool-cases (is_empty (add_of tags) && is_empty (remove_of tags))) [
          | inl none' ↦ (s, none, ground (arith, u, none'))
          | inr some' ↦
              let (s', log, w) =
                write_tags_total p (add_of tags) (remove_of tags) s
                  (to_add-IsDistinct names T (elems tags) held base)
                  (λ t m.
                    ground
                      (arith, mem-to_add names T (elems tags) held base t inj, m, mem-held t)) in
              (s', log, ground (arith, u, some', w))
        ]

    -- If no two tags print alike, altering the tags of a post succeeds, and it is a merge: with the new
    -- tags upgraded, the post has a tag if the new tags have it and the base has not its text, or if the
    -- post had it and it is a new tag or its text is not in the base. Every other post keeps its tags.
    pub alter_post_tags_exact :
        AreReadable names
        → (s' : Store) × (log : Option PostTagsLog) × (tags : Set) × (alter_post_tags S T names p
              named base s
            ≡ ok (s', log))
          × (upgrade S s.alias s.parent_tags named ≡ some tags)
          × ((post t : ℕ)
              → has_row post t s'.post_tag_mappings ≡ (
                  if post == p
                  then mem t (elems tags) && not (has_text (text names t) (T.elems base))
                    || has_row p t s.post_tag_mappings
                      && (mem t (elems tags) || not (has_text (text names t) (T.elems base)))
                  else has_row post t s.post_tag_mappings))
    alter_post_tags_exact inj =
        let (s', log, e) = alter_post_tags_total inj in
        let r = alter_post_tags_run s' log e in
        (s', log, r.tags, e, r.upgraded, λ post t. has_row-alter s' r post t inj)
