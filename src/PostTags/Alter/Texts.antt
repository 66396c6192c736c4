-- ===== src/PostTags/Alter/Texts.antt =====
-- The tags of a set by text and their ids, for AlterPostTags of DataManager/post_tags.go.
use pbooru.Prelude.{
  ==_iff, ==_refl, All, Bool-cases, List, [], ap, arith, inl, inr, map, mem, refl, sym, true, ℕ,
  ◌&&◌, ◌==◌, ◌∙◌, ◌∷◌, ◌≡◌, not,
}
use pbooru.Text.{Text, text_eq, text_eq_iff}
use pbooru.Sets.{IsDistinct}
use pbooru.Tags.Syntax.{Tag, to_string}
use pbooru.Tags.TextSets.{
  HasDistinctTexts, TextSets, All-collect_new, has_text, has_text-collect_new,
}
use pbooru.PostTags.Alter.{ids_of, tag_of, to_add, to_remove, ts}

module _ (names : ℕ → Text × Text) where
  -- what the tag of an id prints as
  abbrev pub text : ℕ → Text
  text t = to_string (tag_of names t)

  -- a tag that is the row of its id
  abbrev IsNamed : Tag → Type 0
  IsNamed t = tag_of names t.id ≡ t

  IsNamed-rows : (xs : List ℕ) → All IsNamed (map (tag_of names) xs)
  IsNamed-rows [] = tt
  IsNamed-rows (x ∷ xs) = (refl, IsNamed-rows xs)

  has_text-ids_of :
      (x : ℕ) (us : List Tag)
      → All IsNamed us
      → mem x (ids_of us) ≡ true
      → has_text (text x) us ≡ true
  has_text-ids_of x [] a m = cc
  has_text-ids_of x (u ∷ us) (e, a) m = elim (Bool-cases (x == u.id)) [
    | inl same ↦
        let x_is : x ≡ u.id = (==_iff x u.id).0 same in
        let eq : text_eq (text x) (to_string u) ≡ true =
          (text_eq_iff (text x) (to_string u)).1 (ap text x_is ∙ ap to_string e) in
        ground (arith, eq)
    | inr other ↦ ground (arith, has_text-ids_of x us a (ground (arith, m, other)))
  ]

  ids_of-IsDistinct :
      (us : List Tag) → All IsNamed us → HasDistinctTexts us → IsDistinct (ids_of us)
  ids_of-IsDistinct [] a d = tt
  ids_of-IsDistinct (u ∷ us) (e, a) (fresh, d) = (
    ground (arith, has_text-ids_of u.id us a, ap (λ (z : Tag). has_text (to_string z) us) e, fresh),
    ids_of-IsDistinct us a d,
  )

  -- no two ids have tags that print alike
  abbrev pub AreReadable : Type 0
  AreReadable = (t u : ℕ) → text t ≡ text u → t ≡ u

  mem-ids_of :
      (x : ℕ) (us : List Tag)
      → AreReadable
      → All IsNamed us
      → mem x (ids_of us) ≡ has_text (text x) us
  mem-ids_of x [] inj a = refl
  mem-ids_of x (u ∷ us) inj (e, a) = ground (
    arith,
    mem-ids_of x us inj a,
    ==_iff x u.id,
    λ (same : x ≡ u.id). (text_eq_iff (text x) (to_string u)).1 (ap text same ∙ ap to_string e),
    λ (alike : text_eq (text x) (to_string u) ≡ true).
        inj x u.id ((text_eq_iff (text x) (to_string u)).0 alike ∙ sym (ap to_string e)),
  )

  mem-rows : (x : ℕ) (xs : List ℕ) → mem x (ids_of (map (tag_of names) xs)) ≡ mem x xs
  mem-rows x [] = refl
  mem-rows x (y ∷ xs) = ground (arith, mem-rows x xs)

  rows_held :
      (xs ys : List ℕ)
      → ((y : ℕ) → mem y xs ≡ true → mem y ys ≡ true)
      → All (λ (t : Tag). mem t.id ys ≡ true) (map (tag_of names) xs)
  rows_held [] ys h = tt
  rows_held (y ∷ xs) ys h =
      (h y (ground (arith, ==_refl y)), rows_held xs ys (λ z k. h z (ground (arith, k))))

  All-ids :
      (x : ℕ) (xs : List ℕ) (us : List Tag)
      → All (λ (t : Tag). mem t.id xs ≡ true) us
      → mem x (ids_of us) ≡ true
      → mem x xs ≡ true
  All-ids x xs [] a m = cc
  All-ids x xs (u ∷ us) (k, a) m =
      ground (arith, m, k, All-ids x xs us a, ==_iff x u.id, λ (e : x ≡ u.id). ap (λ z. mem z xs) e)

  module _ (T : TextSets) where
    open T use {Set, elems}

    ts-IsNamed : (xs : List ℕ) → All IsNamed (elems (ts T names xs))
    unfolding ts
    ts-IsNamed xs = All-collect_new T IsNamed (map (tag_of names) xs) (IsNamed-rows xs)

    has_text-ts :
        (x : ℕ) (xs : List ℕ) → AreReadable → has_text (text x) (elems (ts T names xs)) ≡ mem x xs
    unfolding ts
    has_text-ts x xs inj =
        has_text-collect_new T (text x) (map (tag_of names) xs)
        ∙ sym (mem-ids_of x (map (tag_of names) xs) inj (IsNamed-rows xs))
        ∙ mem-rows x xs

    ts-held : (xs : List ℕ) → All (λ (t : Tag). mem t.id xs ≡ true) (elems (ts T names xs))
    unfolding ts
    ts-held xs =
        All-collect_new T (λ (t : Tag). mem t.id xs ≡ true) (map (tag_of names) xs)
          (rows_held xs xs (λ y k. k))

    -- the ids of a set of rows
    module _ (tags post : List ℕ) (base : Set) where
      abbrev add : List ℕ
      add = to_add T (ts T names tags) base (ts T names post)

      abbrev remove : List ℕ
      remove = to_remove T (ts T names tags) base (ts T names post)

      add-IsNamed : All IsNamed (elems (T.diff (T.diff (ts T names tags) base) (ts T names post)))
      add-IsNamed =
          T.all_diff IsNamed (T.diff (ts T names tags) base) (ts T names post)
            (T.all_diff IsNamed (ts T names tags) base (ts-IsNamed tags))

      remove-IsNamed :
          All IsNamed (elems (T.intersection (ts T names post) (T.diff base (ts T names tags))))
      remove-IsNamed =
          T.all_intersection IsNamed (ts T names post) (T.diff base (ts T names tags))
            (ts-IsNamed post)

      pub to_add-IsDistinct : IsDistinct add
      to_add-IsDistinct = ids_of-IsDistinct _ add-IsNamed (T.distinct _)

      pub to_remove-IsDistinct : IsDistinct remove
      to_remove-IsDistinct = ids_of-IsDistinct _ remove-IsNamed (T.distinct _)

      -- what is removed was there
      pub mem-post : (x : ℕ) → mem x remove ≡ true → mem x post ≡ true
      mem-post x m =
          All-ids x post _
            (T.all_intersection (λ (t : Tag). mem t.id post ≡ true) (ts T names post)
              (T.diff base (ts T names tags)) (ts-held post))
            m

      pub mem-to_add :
          (x : ℕ)
          → AreReadable
          → mem x add ≡ (mem x tags && not (has_text (text x) (elems base)) && not (mem x post))
      mem-to_add x inj = ground (
        arith,
        mem-ids_of x _ inj add-IsNamed,
        T.has_diff (text x) (T.diff (ts T names tags) base) (ts T names post),
        T.has_diff (text x) (ts T names tags) base,
        has_text-ts x tags inj,
        has_text-ts x post inj,
      )

      pub mem-to_remove :
          (x : ℕ)
          → AreReadable
          → mem x remove ≡ (mem x post && has_text (text x) (elems base) && not (mem x tags))
      mem-to_remove x inj = ground (
        arith,
        mem-ids_of x _ inj remove-IsNamed,
        T.has_intersection (text x) (ts T names post) (T.diff base (ts T names tags)),
        T.has_diff (text x) base (ts T names tags),
        has_text-ts x tags inj,
        has_text-ts x post inj,
      )
