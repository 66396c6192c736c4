-- ===== src/LinkedList/Distinct.antt =====
-- A linked list in which each element stands once.
use mathlib.Core.Path.{subst}
use pbooru.Prelude.{
  ==_iff, ==_refl, List, Option, Option-cases, [], ap, arith, false, inl, inr, map, mem, none, not,
  refl, some, sym, true, ℕ, ◌&&◌, ◌==◌, ◌∷◌, ◌≡◌,
}
use pbooru.Sets.{IsDistinct}
use pbooru.LinkedList.{
  LinkedList, value, value_in, remove_in, remove, push_front, set_value, to_front, move_to_front,
  back_in, back, ids, ids-set_value,
}

module _ {ℓ} {V : Type ℓ} where
  mem-ids : (es : List (ℕ × V)) (i : ℕ) → value_in es i ≡ none → mem i (map (λ e. e.0) es) ≡ false
  unfolding value_in
  mem-ids [] i h = refl
  mem-ids ((j, v) ∷ es) i h = ground (arith, mem-ids es i, h, ==_iff i j, ==_iff j i)

  pub value_in-mem :
      (es : List (ℕ × V)) (i : ℕ) (v : V)
      → value_in es i ≡ some v
      → mem i (map (λ e. e.0) es) ≡ true
  unfolding value_in
  value_in-mem [] i v h = cc
  value_in-mem ((j, u) ∷ es) i v h = ground (arith, value_in-mem es i v, h, ==_iff i j, ==_iff j i)

  mem-remove_in :
      (es : List (ℕ × V)) (i j : ℕ)
      → mem j (map (λ e. e.0) (remove_in es i)) ≡ (mem j (map (λ e. e.0) es) && not (i == j))
  unfolding remove_in
  mem-remove_in [] i j = refl
  mem-remove_in ((k, v) ∷ es) i j =
      ground (arith, mem-remove_in es i j, ==_iff k i, ==_iff j k, ==_iff i j)

  remove_in-IsDistinct :
      (es : List (ℕ × V)) (i : ℕ)
      → IsDistinct (map (λ e. e.0) es)
      → IsDistinct (map (λ e. e.0) (remove_in es i))
  unfolding remove_in
  remove_in-IsDistinct [] i d = tt
  remove_in-IsDistinct ((k, v) ∷ es) i (fresh, d) =
      ground (arith, remove_in-IsDistinct es i d, mem-remove_in es i k, fresh)

  pub remove-IsDistinct :
      (l : LinkedList V) (i : ℕ) → IsDistinct (ids l) → IsDistinct (ids (remove l i))
  unfolding remove
  remove-IsDistinct l i d = remove_in-IsDistinct l.elements i d

  pub set_value-IsDistinct :
      (l : LinkedList V) (i : ℕ) (v : V) → IsDistinct (ids l) → IsDistinct (ids (set_value l i v))
  set_value-IsDistinct l i v d = subst IsDistinct (sym (ids-set_value l i v)) d

  pub push_front-IsDistinct :
      (l : LinkedList V) (v : V)
      → value l l.next_id ≡ none
      → IsDistinct (ids l)
      → IsDistinct (ids (push_front l v).1)
  unfolding push_front value
  push_front-IsDistinct l v h d = (mem-ids l.elements l.next_id h, d)

  to_front-IsDistinct :
      (o : Option V) (es : List (ℕ × V)) (i : ℕ)
      → IsDistinct (map (λ e. e.0) es)
      → IsDistinct (map (λ e. e.0) (to_front o es i))
  unfolding to_front
  to_front-IsDistinct none es i d = d
  to_front-IsDistinct (some v) es i d =
      (ground (arith, mem-remove_in es i i, ==_refl i), remove_in-IsDistinct es i d)

  pub move_to_front-IsDistinct :
      (l : LinkedList V) (i : ℕ) → IsDistinct (ids l) → IsDistinct (ids (move_to_front l i))
  unfolding move_to_front
  move_to_front-IsDistinct l i d = to_front-IsDistinct (value_in l.elements i) l.elements i d

  back_in-mem :
      (es : List (ℕ × V)) (id : ℕ) (v : V)
      → IsDistinct (map (λ e. e.0) es)
      → back_in es ≡ some (id, v)
      → value_in es id ≡ some v
  unfolding back_in value_in
  back_in-mem [] id v d h = cc
  back_in-mem ((k, u) ∷ es) id v (fresh, d) h = elim (Option-cases (back_in es)) [
    | inl e ↦ ground (arith, e, h, ==_refl k)
    | inr ((i, w), e) ↦
        let same : back_in es ≡ some (id, v) = ground (arith, e, h) in
        let found : value_in es id ≡ some v = back_in-mem es id v d same in
        ground (
          arith,
          found,
          fresh,
          value_in-mem es id v,
          ==_iff k id,
          λ (z : k ≡ id). ap (λ y. mem y (map (λ e. e.0) es)) z,
        )
  ]

  -- the last element is an element
  pub value-back :
      (l : LinkedList V) (id : ℕ) (v : V)
      → IsDistinct (ids l)
      → back l ≡ some (id, v)
      → value l id ≡ some v
  unfolding back value
  value-back l id v d h = back_in-mem l.elements id v d h
