-- ===== src/Alts/Merged.antt =====
-- The groups of alternatives after `SetAlts` of DataManager/alts.go.
use pbooru.Prelude.{List, ap, arith, false, is_empty, mem, true, ℕ, ◌≡◌, >>=-eq-ok, ok, sym, ◌∙◌}
use mathlib.Core.Path.{subst}
use pbooru.Sets.{SetLib, from_list, mem-from_list}
use pbooru.Database.{has_row}
use pbooru.Duplicates.Moves.{max_of, set_group}
use pbooru.Alts.{AltStore, leaders, members_with, update_group, set_alts}
use pbooru.Alts.Groups.{
  IsKeyed, IsTopped, filled_members, le-max_of, leader-member, max-mem, members_with-IsWhole,
  row_of, set_group-IsKeyed, set_group-IsTopped, set_group-has_row, update_group-ok,
}

module _ (S : SetLib) where
  open S use {Set, elems}

  -- what `SetAlts` does to the posts
  set_alts-ok :
      (pids : List ℕ) (st st' : AltStore) (logged : List ℕ)
      → set_alts S pids st ≡ ok (st', logged)
      → (is_empty logged ≡ false)
        × (logged
            ≡ elems (from_list S (members_with (leaders pids st.duplicates st.posts) st.posts)))
        × (st'.posts
            ≡ set_group logged
                (max_of 0 (members_with (leaders pids st.duplicates st.posts) st.posts))
                st.posts)
  unfolding set_alts
  set_alts-ok pids st st' logged h =
      let members = members_with (leaders pids st.duplicates st.posts) st.posts in
      let ids = elems (from_list S members) in
      let (posts, e, h1) = >>=-eq-ok (update_group (max_of 0 members) ids st.posts) _ h in
      let (some', same) = update_group-ok (max_of 0 members) ids st.posts posts e in
      let logged_is : ids ≡ logged = ground (arith, h1) in
      let posts_is : st'.posts ≡ posts = ground (arith, h1) in
      (
        sym (ap is_empty logged_is) ∙ some',
        sym logged_is,
        posts_is ∙ sym same ∙ ap (λ z. set_group z (max_of 0 members) st.posts) logged_is,
      )

  -- If every post has one group, whose number is the greatest post of it, then so it is after a
  -- successful `SetAlts`.
  pub set_alts-IsTopped :
      (pids : List ℕ) (st st' : AltStore) (logged : List ℕ)
      → set_alts S pids st ≡ ok (st', logged)
      → IsKeyed st.posts
      → IsTopped st.posts
      → IsKeyed st'.posts × IsTopped st'.posts
  set_alts-IsTopped pids st st' logged h keyed topped =
      let (some', logged_is, posts_is) = set_alts-ok pids st st' logged h in
      let ids = leaders pids st.duplicates st.posts in
      let members = members_with ids st.posts in
      let top = max_of 0 members in
      let same = λ (x : ℕ). ap (mem x) logged_is ∙ mem-from_list S x members in
      let filled : is_empty members ≡ false = filled_members logged members some' same in
      subst (λ z. IsKeyed z × IsTopped z) (sym posts_is)
        (
          set_group-IsKeyed logged top st.posts keyed,
          set_group-IsTopped logged top st.posts
              (λ i j g ri rj m.
                same j ∙ members_with-IsWhole ids st.posts keyed i j g ri rj (sym (same i) ∙ m))
              (λ i m. (le-max_of i 0 members).1 (sym (same i) ∙ m))
              (same top ∙ max-mem members filled) (λ i m. row_of ids st.posts i (sym (same i) ∙ m))
              topped,
        )

  -- After a successful `SetAlts` the listed posts, each replaced by the post that it is a duplicate of,
  -- are in one group, as far as they are in the table, and a post that is not logged keeps its group.
  pub set_alts-has_row :
      (pids : List ℕ) (st st' : AltStore) (logged : List ℕ)
      → set_alts S pids st ≡ ok (st', logged)
      → (top : ℕ) × ((p g : ℕ)
          → mem p (leaders pids st.duplicates st.posts) ≡ true
          → has_row p g st.posts ≡ true
          → has_row p top st'.posts ≡ true)
        × ((i g : ℕ)
            → mem i logged ≡ false
            → has_row i g st.posts ≡ true
            → has_row i g st'.posts ≡ true)
  set_alts-has_row pids st st' logged h =
      let (some', logged_is, posts_is) = set_alts-ok pids st st' logged h in
      let ids = leaders pids st.duplicates st.posts in
      let members = members_with ids st.posts in
      let top = max_of 0 members in
      (
        top,
        λ p g lead r.
            let inside : mem p logged ≡ true =
              ap (mem p) logged_is
              ∙ mem-from_list S p members
              ∙ leader-member ids st.posts p g lead r in
            ap (has_row p top) posts_is
            ∙ ground (arith, set_group-has_row logged top p g st.posts r, inside),
        λ i g out r.
            ap (has_row i g) posts_is
            ∙ ground (arith, set_group-has_row logged top i g st.posts r, out),
      )
