-- ===== src/Sets.antt =====
-- The sorted sets of the package github.com/kycklingar/set, which is not in the repository: an
-- interface with the documented meaning of its operations. A tag is its id here, since `Tag.Less`
-- of DataManager/tag_set.go compares ids only.
use pbooru.Prelude.{
  ℕ, ◌≡◌, refl, ap, Bool, false, not, ◌&&◌, ◌||◌, List, [], ◌∷◌, ◌++◌, arith, mem, keep, ◌==◌,
  if◌then◌else◌, mem-append, mem-keep,
}

pub record SetLib : Type 1 where
  pub Set : Type 0
  -- the slice that a `range` over the set goes through
  pub elems : Set → List ℕ
  pub new : Set
  pub add : ℕ → Set → Set
  pub has : Set → ℕ → Bool
  pub union : Set → Set → Set
  pub diff : Set → Set → Set
  pub intersection : Set → Set → Set
  pub elems_new : elems new ≡ []
  pub mem_add : (x y : ℕ) (s : Set) → mem x (elems (add y s)) ≡ (x == y || mem x (elems s))
  pub has_mem : (s : Set) (x : ℕ) → has s x ≡ mem x (elems s)
  pub mem_union :
      (x : ℕ) (s t : Set) → mem x (elems (union s t)) ≡ (mem x (elems s) || mem x (elems t))
  pub mem_diff :
      (x : ℕ) (s t : Set) → mem x (elems (diff s t)) ≡ (mem x (elems s) && not (mem x (elems t)))
  pub mem_intersection :
      (x : ℕ) (s t : Set) → mem x (elems (intersection s t)) ≡ (mem x (elems s) && mem x (elems t))

module _ (S : SetLib) where
  open S use {Set, elems, new, elems_new, add, mem_add}

  -- `for _, v := range xs { s.Set(v) }`
  unfoldable pub add_all : List ℕ → Set → Set
  add_all [] s = s
  add_all (x ∷ xs) s = add_all xs (add x s)

  -- set.New[Tag](xs...)
  unfoldable pub from_list : List ℕ → Set
  from_list xs = add_all xs new

  pub mem-add_all :
      (x : ℕ) (xs : List ℕ) (s : Set) → mem x (elems (add_all xs s)) ≡ (mem x xs || mem x (elems s))
  unfolding add_all
  mem-add_all x [] s = refl
  mem-add_all x (y ∷ xs) s = ground (arith, mem-add_all x xs (add y s), mem_add x y s)

  pub mem-from_list : (x : ℕ) (xs : List ℕ) → mem x (elems (from_list xs)) ≡ mem x xs
  unfolding from_list
  mem-from_list x xs = ground (arith, mem-add_all x xs new, ap (mem x) elems_new)

-- no number stands twice in the list
abbrev pub IsDistinct : List ℕ → Type 0
IsDistinct [] = Unit {0}
IsDistinct (x ∷ xs) = (mem x xs ≡ false) × IsDistinct xs

-- The interface can be met: sets as lists in the order of insertion.
abbrev pub insert : ℕ → List ℕ → List ℕ
insert y s = if mem y s then s else y ∷ s

pub mem-insert : (x y : ℕ) (s : List ℕ) → mem x (insert y s) ≡ (x == y || mem x s)
mem-insert x y s = ground arith

abbrev pub list_sets : SetLib
list_sets = record {
  Set = List ℕ;
  elems = λ s. s;
  new = [];
  add = insert;
  has = λ s x. mem x s;
  union = λ s t. s ++ t;
  diff = λ s t. keep (λ x. not (mem x t)) s;
  intersection = λ s t. keep (λ x. mem x t) s;
  elems_new = refl;
  mem_add = mem-insert;
  has_mem = λ s x. refl;
  mem_union = mem-append;
  mem_diff = λ x s t. mem-keep (λ y. not (mem y t)) x s;
  mem_intersection = λ x s t. mem-keep (λ y. mem y t) x s;
}
