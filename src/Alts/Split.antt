-- ===== src/Alts/Split.antt =====
-- The groups of alternatives after `SplitAlts` of DataManager/alts.go.
use pbooru.Prelude.{
  List, ap, arith, false, if◌then◌else◌, is_empty, keep, mem, mem-keep, not, ok, sym, true, ℕ, ◌&&◌,
  ◌∙◌, ◌∷◌, ◌≡◌, ◌≤◌, >>=-eq-ok, [],
}
use pbooru.Sets.{SetLib, from_list, mem-from_list}
use pbooru.Database.{Table, has_row, mem-snd_where, snd_where}
use pbooru.Tags.Family.Ancestors.{mem-fst_where, fst_where_sound}
use pbooru.Duplicates.Moves.{max_of}
use pbooru.Alts.{AltStore, members_with, update_group, split_alts, split_groups}
use pbooru.Alts.Groups.{set_group-has_row, update_group-ok, filled_members, le-max_of, max-mem}

-- one of the posts, and none of them is greater
pub record IsGreatest (top : ℕ) (ids : List ℕ) : Type 0 where
  pub own : mem top ids ≡ true
  pub bound : (i : ℕ) → mem i ids ≡ true → i ≤ top

max_of-IsGreatest :
    (xs ys : List ℕ)
    → is_empty xs ≡ false
    → ((i : ℕ) → mem i xs ≡ mem i ys)
    → IsGreatest (max_of 0 ys) xs
max_of-IsGreatest xs ys filled same = record {
  own = same (max_of 0 ys) ∙ max-mem ys (filled_members xs ys filled same);
  bound = λ i m. (le-max_of i 0 ys).1 (sym (same i) ∙ m);
}

-- `i` shares a group with `first`
abbrev pub Shares : ℕ → ℕ → Table → Type 0
Shares first i posts = (g : ℕ) × (has_row i g posts ≡ true) × (has_row first g posts ≡ true)

members_with-Shares :
    (first i : ℕ) (posts : Table)
    → mem i (members_with (first ∷ []) posts) ≡ true
    → Shares first i posts
unfolding members_with
members_with-Shares first i posts m =
    let (g, r, k) = fst_where_sound i (snd_where (first ∷ []) posts) posts m in
    (g, r, sym (mem-snd_where first g posts) ∙ k)

Shares-members_with :
    (first i : ℕ) (posts : Table)
    → Shares first i posts
    → mem i (members_with (first ∷ []) posts) ≡ true
unfolding members_with
Shares-members_with first i posts (g, r, k) =
    mem-fst_where i g (snd_where (first ∷ []) posts) posts r (mem-snd_where first g posts ∙ k)

module _ (S : SetLib) where
  open S use {Set, elems}

  -- what the two updates leave, `a` and `b` being what is logged
  record Split (first : ℕ) (pids : List ℕ) (st st' : AltStore) (a b : List ℕ) : Type 0 where
    pub others : List ℕ
    pub in_others :
        (i : ℕ) → mem i others ≡ (mem i (members_with (first ∷ []) st.posts) && not (mem i pids))
    pub in_a : (i : ℕ) → mem i a ≡ mem i others
    pub in_b : (i : ℕ) → mem i b ≡ mem i pids
    pub filled_a : is_empty a ≡ false
    pub filled_b : is_empty b ≡ false
    pub rows :
        (i g : ℕ)
        → has_row i g st.posts ≡ true
        → has_row i
            (if mem i b then max_of 0 b else if mem i a then max_of 0 others else g)
            st'.posts
          ≡ true

  split_alts-ok :
      (first : ℕ) (rest : List ℕ) (st st' : AltStore) (a b : List ℕ)
      → split_alts S (first ∷ rest) st ≡ ok (st', a, b)
      → Split first (first ∷ rest) st st' a b
  unfolding split_alts split_groups
  split_alts-ok first rest st st' a b h =
      let pids = first ∷ rest in
      let listed = elems (from_list S pids) in
      let others = keep (λ id. not (mem id listed)) (members_with (first ∷ []) st.posts) in
      let left = elems (from_list S others) in
      let (posts1, e1, h1) = >>=-eq-ok (update_group (max_of 0 others) left st.posts) _ h in
      let (posts2, e2, h2) = >>=-eq-ok (update_group (max_of 0 listed) listed posts1) _ h1 in
      let (filled1, same1) = update_group-ok (max_of 0 others) left st.posts posts1 e1 in
      let (filled2, same2) = update_group-ok (max_of 0 listed) listed posts1 posts2 e2 in
      let a_is : left ≡ a = ground (arith, h2) in
      let b_is : listed ≡ b = ground (arith, h2) in
      let posts_is : posts2 ≡ st'.posts = ground (arith, h2) in
      let in_b = λ (i : ℕ). mem-from_list S i pids in
      record {
        others = others;
        in_others = λ i.
            mem-keep (λ id. not (mem id listed)) i (members_with (first ∷ []) st.posts)
            ∙ ap (λ z. mem i (members_with (first ∷ []) st.posts) && not z) (in_b i);
        in_a = λ i. ap (mem i) (sym a_is) ∙ mem-from_list S i others;
        in_b = λ i. ap (mem i) (sym b_is) ∙ in_b i;
        filled_a = ap is_empty (sym a_is) ∙ filled1;
        filled_b = ap is_empty (sym b_is) ∙ filled2;
        rows = λ i g r.
            let mid = if mem i left then max_of 0 others else g in
            let r1 : has_row i mid posts1 ≡ true =
              ap (has_row i mid) (sym same1)
              ∙ set_group-has_row left (max_of 0 others) i g st.posts r in
            let final = if mem i listed then max_of 0 listed else mid in
            let r2 : has_row i final posts2 ≡ true =
              ap (has_row i final) (sym same2)
              ∙ set_group-has_row listed (max_of 0 listed) i mid posts1 r1 in
            let goal_is : final
                ≡ (if mem i b then max_of 0 b else if mem i a then max_of 0 others else g) =
              ground (arith, ap (mem i) b_is, ap (mem i) a_is, ap (max_of 0) b_is) in
            ap (λ z. has_row i z st'.posts) (sym goal_is)
            ∙ ap (has_row i final) (sym posts_is)
            ∙ r2;
      }

  -- After a successful `SplitAlts` the listed posts are in the group of the greatest of them, the other
  -- posts of the first one's group in the group of the greatest of these, and the rest in their own.
  -- The two lists that are logged are these others, and the listed posts.
  pub split_alts-has_row :
      (first : ℕ) (rest : List ℕ) (st st' : AltStore) (a b : List ℕ)
      → split_alts S (first ∷ rest) st ≡ ok (st', a, b)
      → (top : ℕ) × (top_rest : ℕ) × IsGreatest top (first ∷ rest)
        × IsGreatest top_rest a
        × ((i : ℕ) → mem i b ≡ mem i (first ∷ rest))
        × ((i : ℕ) → mem i a ≡ true → Shares first i st.posts × (mem i (first ∷ rest) ≡ false))
        × ((i : ℕ) → Shares first i st.posts → mem i (first ∷ rest) ≡ false → mem i a ≡ true)
        × ((i g : ℕ)
            → has_row i g st.posts ≡ true
            → has_row i
                (if mem i (first ∷ rest) then top else if mem i a then top_rest else g)
                st'.posts
              ≡ true)
  split_alts-has_row first rest st st' a b h =
      let pids = first ∷ rest in
      let s = split_alts-ok first rest st st' a b h in
      let in_a = λ (i : ℕ). s.in_a i ∙ s.in_others i in
      (
        max_of 0 b,
        max_of 0 s.others,
        max_of-IsGreatest pids b (filled_members b pids s.filled_b s.in_b) (λ i. sym (s.in_b i)),
        max_of-IsGreatest a s.others s.filled_a s.in_a,
        s.in_b,
        λ i m. (
          members_with-Shares first i st.posts (ground (arith, in_a i, m)),
          ground (arith, in_a i, m),
        ),
        λ i shared out. ground (arith, in_a i, Shares-members_with first i st.posts shared, out),
        λ i g r.
            ap
              (λ z.
                has_row i (if z then max_of 0 b else if mem i a then max_of 0 s.others else g)
                  st'.posts)
              (sym (s.in_b i))
            ∙ s.rows i g r,
      )
