-- ===== src/LinkedList.antt =====
-- container/list of Go: a list whose elements have an identity, which a client keeps as a pointer.
-- The front is the first element.
pub mod Distinct
use pbooru.Prelude.{
  ℕ, ◌+◌, ◌≤◌, ◌≡◌, refl, ap, ==_iff, List, map, [], ◌∷◌, Option, none, some, arith, ◌==◌,
  if◌then◌else◌, Option-cases, inl, inr,
}

pub record LinkedList {ℓ} (V : Type ℓ) : Type ℓ where
  pub elements : List (ℕ × V)
  -- the identity of the next new element
  pub next_id : ℕ

module _ {ℓ} {V : Type ℓ} where
  unfoldable pub value_in : List (ℕ × V) → ℕ → Option V
  value_in [] id = none
  value_in ((i, v) ∷ es) id = if i == id then some v else value_in es id

  unfoldable pub remove_in : List (ℕ × V) → ℕ → List (ℕ × V)
  remove_in [] id = []
  remove_in ((i, v) ∷ es) id = let rest = remove_in es id in if i == id then rest else (i, v) ∷ rest

  unfoldable pub set_in : List (ℕ × V) → ℕ → V → List (ℕ × V)
  set_in [] id w = []
  set_in ((i, v) ∷ es) id w = (i, (if i == id then w else v)) ∷ set_in es id w

  -- e.Value, where `e` is an element of the list
  unfoldable pub value : LinkedList V → ℕ → Option V
  value l id = value_in l.elements id

  unfoldable pub push_front : LinkedList V → V → ℕ × LinkedList V
  push_front l v =
      (l.next_id, record { elements = (l.next_id, v) ∷ l.elements; next_id = l.next_id + 1 })

  -- an element that is not in the list is left alone
  unfoldable pub remove : LinkedList V → ℕ → LinkedList V
  remove l id = record l { elements = remove_in l.elements id }

  unfoldable pub set_value : LinkedList V → ℕ → V → LinkedList V
  set_value l id v = record l { elements = set_in l.elements id v }

  unfoldable pub to_front : Option V → List (ℕ × V) → ℕ → List (ℕ × V)
  unfolding remove_in
  to_front none es id = es
  to_front (some v) es id = (id, v) ∷ remove_in es id

  unfoldable pub move_to_front : LinkedList V → ℕ → LinkedList V
  unfolding to_front value_in
  move_to_front l id = record l { elements = to_front (value_in l.elements id) l.elements id }

  -- the last element
  unfoldable pub back_in : List (ℕ × V) → Option (ℕ × V)
  back_in [] = none
  back_in (e ∷ es) = elim (back_in es) [ none ↦ some e | some b ↦ some b ]

  unfoldable pub back : LinkedList V → Option (ℕ × V)
  unfolding back_in
  back l = back_in l.elements

  -- identities from `next_id` on are not in use
  abbrev pub IsAllocated : LinkedList V → Type ℓ
  IsAllocated l = (id : ℕ) → l.next_id ≤ id → value l id ≡ none

  value_in-remove_in :
      (es : List (ℕ × V)) (i id : ℕ)
      → value_in (remove_in es i) id ≡ (if i == id then none else value_in es id)
  unfolding value_in remove_in
  value_in-remove_in [] i id = ground arith
  value_in-remove_in ((j, v) ∷ es) i id = ground (arith, value_in-remove_in es i id)

  pub value-remove :
      (l : LinkedList V) (i id : ℕ) → value (remove l i) id ≡ (if i == id then none else value l id)
  unfolding value remove
  value-remove l i id = value_in-remove_in l.elements i id

  abbrev over : V → Option V → Option V
  over v none = none
  over v (some u) = some v

  value_in-set_in :
      (es : List (ℕ × V)) (i id : ℕ) (v : V)
      → value_in (set_in es i v) id ≡ (if i == id then over v (value_in es id) else value_in es id)
  unfolding value_in set_in
  value_in-set_in [] i id v = ground arith
  value_in-set_in ((j, u) ∷ es) i id v = ground (arith, value_in-set_in es i id v)

  pub value-set_value :
      (l : LinkedList V) (i id : ℕ) (v w : V)
      → value l i ≡ some w
      → value (set_value l i v) id ≡ (if i == id then some v else value l id)
  unfolding value set_value
  value-set_value l i id v w h = ground (
    arith,
    value_in-set_in l.elements i id v,
    ==_iff i id,
    λ (e : i ≡ id). ap (value_in l.elements) e,
  )

  pub value-push_front :
      (l : LinkedList V) (v : V) (id : ℕ)
      → value (push_front l v).1 id ≡ (if l.next_id == id then some v else value l id)
  unfolding value push_front value_in
  value-push_front l v id = refl

  pub next_id-set_value : (l : LinkedList V) (i : ℕ) (v : V) → (set_value l i v).next_id ≡ l.next_id
  unfolding set_value
  next_id-set_value l i v = refl

  pub next_id-remove : (l : LinkedList V) (i : ℕ) → (remove l i).next_id ≡ l.next_id
  unfolding remove
  next_id-remove l i = refl

  pub push_front_id :
      (l : LinkedList V) (v : V)
      → ((push_front l v).0 ≡ l.next_id) × ((push_front l v).1.next_id ≡ l.next_id + 1)
  unfolding push_front
  push_front_id l v = (refl, refl)

  -- the elements from the front to the back
  abbrev pub ids : LinkedList V → List ℕ
  ids l = map (λ e. e.0) l.elements

  ids-set_in :
      (es : List (ℕ × V)) (id : ℕ) (v : V) → map (λ e. e.0) (set_in es id v) ≡ map (λ e. e.0) es
  unfolding set_in
  ids-set_in [] id v = refl
  ids-set_in (e ∷ es) id v = ap (λ xs. e.0 ∷ xs) (ids-set_in es id v)

  pub ids-set_value : (l : LinkedList V) (id : ℕ) (v : V) → ids (set_value l id v) ≡ ids l
  unfolding set_value
  ids-set_value l id v = ids-set_in l.elements id v

  pub value-move_to_front :
      (l : LinkedList V) (i id : ℕ) → value (move_to_front l i) id ≡ value l id
  unfolding value move_to_front to_front value_in
  value-move_to_front l i id = elim (Option-cases (value_in l.elements i)) [
    | inl e ↦ ground (arith, e)
    | inr (v, e) ↦ ground (
      arith,
      e,
      value_in-remove_in l.elements i id,
      ==_iff i id,
      λ (q : i ≡ id). ap (value_in l.elements) q,
    )
  ]

  pub next_id-move_to_front : (l : LinkedList V) (i : ℕ) → (move_to_front l i).next_id ≡ l.next_id
  unfolding move_to_front
  next_id-move_to_front l i = refl
