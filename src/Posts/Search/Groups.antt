-- ===== src/Posts/Search/Groups.antt =====
-- The post of each group of alternatives that a search lists (DataManager/posts.go).
use mathlib.Core.List.{Mem, mem-cons_self, mem-cons_of_mem}
use mathlib.Core.Path.{subst}
use pbooru.Posts.{Post, score}
use pbooru.Posts.Search.{before, best_of, distinct_groups}
use pbooru.Posts.Search.Precedes.{Precedes, before-Precedes, before_total, before_trans}
use pbooru.Prelude.{
  ==_iff, All, All-map, Bool, Bool-cases, List, [], ap, arith, false, if◌then◌else◌, inl, inr, keep,
  length, map, mem, refl, sym, true, ℕ, ◌&&◌, ◌==◌, ◌∙◌, ◌∷◌, ◌≡◌,
}

abbrev pub groups : List Post → List ℕ
groups rows = map (λ (p : Post). p.alt_group) rows

-- a post of the list that precedes all posts of its group
abbrev pub IsBest : List Post → Post → Type 0
IsBest posts p = Mem p posts × All (λ q. q.alt_group ≡ p.alt_group → Precedes score p q) posts

best_of-All :
    (P : Post → Type 0) (p : Post) (posts : List Post) → P p → All P posts → P (best_of p posts)
unfolding best_of
best_of-All P p [] h a = h
best_of-All P p (q ∷ posts) h (k, a) =
    elim (Bool-cases (p.alt_group == q.alt_group && before score q p)) [
      | inl e ↦ rw e (best_of-All P q posts k a)
      | inr e ↦ rw e (best_of-All P p posts h a)
    ]

-- the better of two posts of a group
abbrev beats : Post → Post → Bool
beats p q = p.alt_group == q.alt_group && before score q p

best_of-cons :
    (p q : Post) (posts : List Post) (b : Bool)
    → beats p q ≡ b
    → best_of (if b then q else p) posts ≡ best_of p (q ∷ posts)
unfolding best_of
best_of-cons p q posts b e = ap (λ c. best_of (if c then q else p) posts) (sym e)

best_of-group : (p : Post) (posts : List Post) → (best_of p posts).alt_group ≡ p.alt_group
best_of-group p [] = unfold best_of in refl
best_of-group p (q ∷ posts) = elim (Bool-cases (beats p q)) [
  | inl e ↦
      let same : q.alt_group ≡ p.alt_group = ground (arith, e, ==_iff p.alt_group q.alt_group) in
      ap (λ (z : Post). z.alt_group) (sym (best_of-cons p q posts true e))
      ∙ best_of-group q posts
      ∙ same
  | inr e ↦
      ap (λ (z : Post). z.alt_group) (sym (best_of-cons p q posts false e)) ∙ best_of-group p posts
]

before_refl : (p : Post) → before score p p ≡ true
before_refl p = elim (Bool-cases (before score p p)) [
  | inl e ↦ e
  | inr e ↦ before_total score p p e
]

-- `b` comes before `p` and before the posts of the list that are of its group
abbrev Leads : Post → Post → List Post → Type 0
Leads b p posts =
    (before score b p ≡ true) × All (λ q. q.alt_group ≡ p.alt_group → before score b q ≡ true) posts

best_of-Leads : (p : Post) (posts : List Post) → Leads (best_of p posts) p posts
best_of-Leads p [] = (unfold best_of in before_refl p, tt)
best_of-Leads p (q ∷ posts) = elim (Bool-cases (beats p q)) [
  | inl e ↦
      let (own, rest) = best_of-Leads q posts in
      let same : q.alt_group ≡ p.alt_group = ground (arith, e, ==_iff p.alt_group q.alt_group) in
      subst (λ b. Leads b p (q ∷ posts)) (best_of-cons p q posts true e)
        (
          before_trans score (best_of q posts) q p own (ground (arith, e)),
          ((λ _. own), All-map _ _ posts (λ x h k. h (k ∙ sym same)) rest),
        )
  | inr e ↦
      let (own, rest) = best_of-Leads p posts in
      subst (λ b. Leads b p (q ∷ posts)) (best_of-cons p q posts false e)
        (
          own,
          (
            λ k.
                before_trans score (best_of p posts) p q own (
                  before_total score q p
                    (ground (arith, e, sym k, ==_iff p.alt_group q.alt_group))),
            rest,
          ),
        )
]

best_of-IsBest :
    (p : Post) (posts : List Post)
    → Mem p posts
    → All (λ x. Mem x posts) posts
    → IsBest posts (best_of p posts)
best_of-IsBest p posts m a = (
  best_of-All (λ x. Mem x posts) p posts m a,
  All-map _ _ posts
      (λ q h k. before-Precedes score (best_of p posts) q (h (k ∙ best_of-group p posts)))
      (best_of-Leads p posts).1,
)

All-Mem :
    (rows posts : List Post) → ((p : Post) → Mem p rows → Mem p posts) → All (λ x. Mem x posts) rows
All-Mem [] posts h = tt
All-Mem (p ∷ rows) posts h =
    (h p mem-cons_self, All-Mem rows posts (λ q m. h q (mem-cons_of_mem p m)))

IsBest-distinct_groups :
    (rows posts : List Post)
    → All (λ x. Mem x posts) rows
    → All (λ x. Mem x posts) posts
    → All (IsBest posts) (distinct_groups rows posts)
unfolding distinct_groups
IsBest-distinct_groups [] posts a all = tt
IsBest-distinct_groups (p ∷ rows) posts (m, a) all =
    elim (Bool-cases (mem p.alt_group (groups rows))) [
      | inl e ↦ rw e (IsBest-distinct_groups rows posts a all)
      | inr e ↦ rw e (best_of-IsBest p posts m all, IsBest-distinct_groups rows posts a all)
    ]

pub distinct_groups-IsBest : (posts : List Post) → All (IsBest posts) (distinct_groups posts posts)
distinct_groups-IsBest posts =
    let all = All-Mem posts posts (λ p m. m) in IsBest-distinct_groups posts posts all all

pub count-distinct_groups :
    (g : ℕ) (rows posts : List Post)
    → length (keep (λ (p : Post). p.alt_group == g) (distinct_groups rows posts))
      ≡ (if mem g (groups rows) then 1 else 0)
unfolding distinct_groups
count-distinct_groups g [] posts = refl
count-distinct_groups g (p ∷ rows) posts = ground (
  arith,
  count-distinct_groups g rows posts,
  best_of-group p posts,
  ==_iff (best_of p posts).alt_group g,
  ==_iff g p.alt_group,
  λ (e : g ≡ p.alt_group). ap (λ z. mem z (groups rows)) e,
)
