-- ===== src/Duplicates/Moves/Alts.antt =====
-- The groups of alternatives after `updateAlts` of DataManager/duplicates.go.
use pbooru.Prelude.{
  ℕ, ◌≡◌, refl, sym, ◌∙◌, ap, true, false, List, [], ◌∷◌, Option, none, some, arith, mem, ◌==◌,
  ==_iff, if◌then◌else◌, is_empty, Bool-cases, inl, inr,
}
use mathlib.Core.Option
use pbooru.Sets.{SetLib, from_list, mem-add_all}
use pbooru.Database.{Table}
use pbooru.Duplicates.Moves.{alt_members, max_of, set_group, reset_group, update_alts}

-- the alt_group of a post, by its primary key
unfoldable pub group_of : ℕ → Table → Option ℕ
group_of x [] = none
group_of x ((id, g) ∷ posts) = if id == x then some g else group_of x posts

group_of-set_group :
    (ids : List ℕ) (group x : ℕ) (posts : Table)
    → group_of x (set_group ids group posts)
      ≡ Option.map (λ g. if mem x ids then group else g) (group_of x posts)
unfolding group_of set_group
group_of-set_group ids group x [] = refl
group_of-set_group ids group x ((id, g) ∷ posts) = elim (Bool-cases (id == x)) [
  | inl e ↦ ground (arith, e, ==_iff id x, λ (q : id ≡ x). ap (λ z. mem z ids) q)
  | inr e ↦ ground (arith, e, group_of-set_group ids group x posts)
]

group_of-reset_group :
    (ids : List ℕ) (x : ℕ) (posts : Table)
    → group_of x (reset_group ids posts)
      ≡ Option.map (λ g. if mem x ids then x else g) (group_of x posts)
unfolding group_of reset_group
group_of-reset_group ids x [] = refl
group_of-reset_group ids x ((id, g) ∷ posts) = elim (Bool-cases (id == x)) [
  | inl e ↦ ground (arith, e, ==_iff id x, λ (q : id ≡ x). ap (λ z. mem z ids) q)
  | inr e ↦ ground (arith, e, group_of-reset_group ids x posts)
]

map-map :
    (f g h : ℕ → ℕ) (o : Option ℕ)
    → ((x : ℕ) → f (g x) ≡ h x)
    → Option.map f (Option.map g o) ≡ Option.map h o
map-map f g h none e = refl
map-map f g h (some x) e = ap some (e x)

map_same : (h : ℕ → ℕ) (o : Option ℕ) → ((x : ℕ) → h x ≡ x) → o ≡ Option.map h o
map_same h none e = refl
map_same h (some x) e = ap some (sym (e x))

mem-empty : (x : ℕ) (ids : List ℕ) → is_empty ids ≡ true → mem x ids ≡ false
mem-empty x [] e = refl
mem-empty x (y ∷ ids) e = cc

group_of-merge :
    (ids : List ℕ) (group x : ℕ) (posts : Table)
    → group_of x (if is_empty ids then posts else set_group ids group posts)
      ≡ Option.map (λ g. if mem x ids then group else g) (group_of x posts)
group_of-merge ids group x posts = elim (Bool-cases (is_empty ids)) [
  | inl e ↦
      ap (λ b. group_of x (if b then posts else set_group ids group posts)) e
      ∙ map_same (λ g. if mem x ids then group else g) (group_of x posts)
          (λ g. ground (arith, mem-empty x ids e))
  | inr e ↦
      ap (λ b. group_of x (if b then posts else set_group ids group posts)) e
      ∙ group_of-set_group ids group x posts
]

module _ (S : SetLib) where
  open S use {elems, new, elems_new}

  mem-pids : (x : ℕ) (ids : List ℕ) → mem x (elems (from_list S ids)) ≡ mem x ids
  unfolding from_list
  mem-pids x ids = ground (arith, mem-add_all S x ids new, ap (mem x) elems_new)

  -- After the groups were updated each inferior is alone in a group of its own, each post that
  -- shared a group with an inferior is in the group of the greatest of these posts and the
  -- superior, and every other post is in the group it was in: the superior too, unless it shared
  -- one with an inferior.
  pub group_of-update_alts :
      (p : ℕ) (inferior : List ℕ) (posts : Table) (x : ℕ)
      → group_of x (update_alts S p inferior posts).0
        ≡ Option.map
            (λ g.
              if mem x inferior
              then x
              else if mem x (alt_members inferior posts)
              then max_of p (alt_members inferior posts)
              else g)
            (group_of x posts)
  unfolding update_alts
  group_of-update_alts p inferior posts x =
      let members = alt_members inferior posts in
      let pids = elems (from_list S members) in
      let top = max_of p members in
      group_of-reset_group inferior x (if is_empty pids then posts else set_group pids top posts)
      ∙ ap (Option.map (λ g. if mem x inferior then x else g)) (group_of-merge pids top x posts)
      ∙ map-map (λ g. if mem x inferior then x else g) (λ g. if mem x pids then top else g)
          (λ g. if mem x inferior then x else if mem x members then top else g) (group_of x posts)
          (λ g. ground (arith, mem-pids x members))
