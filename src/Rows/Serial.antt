-- ===== src/Rows/Serial.antt =====
-- Distinct ids below the next one, the state of a serial key.
use pbooru.Rows.{set_row, update_where, rows_where, delete_row}
use mathlib.Core.Path.{subst}
use pbooru.Sets.{IsDistinct}
use pbooru.Prelude.{
  Bool, Bool-cases, List, [], ap, arith, false, inl, inr, mem, refl, sym, ℕ, ◌+◌, ◌∷◌, ◌≡◌, ◌≤◌,
  ◌==◌,
}

module _ {V : Type 0} where
  abbrev pub ids : List (ℕ × V) → List ℕ
  ids [] = []
  ids ((id, v) ∷ rows) = id ∷ ids rows

  -- ids are below the next one, and no two rows have the same
  abbrev pub IsSerial : ℕ → List (ℕ × V) → Type 0
  IsSerial next rows = IsDistinct (ids rows) × ((k : ℕ) → next ≤ k → mem k (ids rows) ≡ false)

  ids-set_row : (k : ℕ) (v : V) (rows : List (ℕ × V)) → ids (set_row k v rows) ≡ ids rows
  unfolding set_row
  ids-set_row k v [] = refl
  ids-set_row k v ((id, u) ∷ rows) = ap (λ (r : List ℕ). id ∷ r) (ids-set_row k v rows)

  ids-update_where :
      (test : V → Bool) (f : V → V) (rows : List (ℕ × V))
      → ids (update_where test f rows) ≡ ids rows
  unfolding update_where
  ids-update_where test f [] = refl
  ids-update_where test f ((id, u) ∷ rows) =
      ap (λ (r : List ℕ). id ∷ r) (ids-update_where test f rows)

  pub mem-rows_where :
      (k : ℕ) (test : V → Bool) (rows : List (ℕ × V))
      → mem k (ids rows) ≡ false
      → mem k (ids (rows_where test rows)) ≡ false
  unfolding rows_where
  mem-rows_where k test [] h = refl
  mem-rows_where k test ((id, u) ∷ rows) h = ground (arith, h, mem-rows_where k test rows)

  rows_where-IsDistinct :
      (test : V → Bool) (rows : List (ℕ × V))
      → IsDistinct (ids rows)
      → IsDistinct (ids (rows_where test rows))
  unfolding rows_where
  rows_where-IsDistinct test [] d = tt
  rows_where-IsDistinct test ((id, u) ∷ rows) (fresh, d) = elim (Bool-cases (test u)) [
    | inl e ↦ rw e (mem-rows_where id test rows fresh, rows_where-IsDistinct test rows d)
    | inr e ↦ rw e (rows_where-IsDistinct test rows d)
  ]

  pub set_row-IsSerial :
      (next k : ℕ) (v : V) (rows : List (ℕ × V))
      → IsSerial next rows
      → IsSerial next (set_row k v rows)
  set_row-IsSerial next k v rows h =
      subst (λ ks. IsDistinct ks × ((j : ℕ) → next ≤ j → mem j ks ≡ false))
        (sym (ids-set_row k v rows)) h

  pub update_where-IsSerial :
      (next : ℕ) (test : V → Bool) (f : V → V) (rows : List (ℕ × V))
      → IsSerial next rows
      → IsSerial next (update_where test f rows)
  update_where-IsSerial next test f rows h =
      subst (λ ks. IsDistinct ks × ((j : ℕ) → next ≤ j → mem j ks ≡ false))
        (sym (ids-update_where test f rows)) h

  pub rows_where-IsSerial :
      (next : ℕ) (test : V → Bool) (rows : List (ℕ × V))
      → IsSerial next rows
      → IsSerial next (rows_where test rows)
  rows_where-IsSerial next test rows (d, above) =
      (rows_where-IsDistinct test rows d, λ k h. mem-rows_where k test rows (above k h))

  mem-delete_row :
      (j k : ℕ) (rows : List (ℕ × V))
      → mem j (ids rows) ≡ false
      → mem j (ids (delete_row k rows)) ≡ false
  unfolding delete_row
  mem-delete_row j k [] h = refl
  mem-delete_row j k ((id, u) ∷ rows) h = ground (arith, h, mem-delete_row j k rows)

  delete_row-IsDistinct :
      (k : ℕ) (rows : List (ℕ × V)) → IsDistinct (ids rows) → IsDistinct (ids (delete_row k rows))
  unfolding delete_row
  delete_row-IsDistinct k [] d = tt
  delete_row-IsDistinct k ((id, u) ∷ rows) (fresh, d) = elim (Bool-cases (id == k)) [
    | inl e ↦ rw e (delete_row-IsDistinct k rows d)
    | inr e ↦ rw e (mem-delete_row id k rows fresh, delete_row-IsDistinct k rows d)
  ]

  pub delete_row-IsSerial :
      (next k : ℕ) (rows : List (ℕ × V)) → IsSerial next rows → IsSerial next (delete_row k rows)
  delete_row-IsSerial next k rows (d, above) =
      (delete_row-IsDistinct k rows d, λ j h. mem-delete_row j k rows (above j h))

  pub insert-IsSerial :
      (next : ℕ) (v : V) (rows : List (ℕ × V))
      → IsSerial next rows
      → IsSerial (next + 1) ((next, v) ∷ rows)
  insert-IsSerial next v rows (d, above) =
      ((above next (omega arith), d), λ k h. ground (arith, above k))
