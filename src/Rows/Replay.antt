-- ===== src/Rows/Replay.antt =====
-- What the entries of a statement on many rows do, one after another.
use pbooru.Rows.Serial.{ids, mem-rows_where}
use pbooru.Rows.{set_row, delete_row, replay, returned, rows_where, entries, update_where, apply}
use pbooru.Sets.{IsDistinct}
use pbooru.Prelude.{
  Bool, Bool-cases, List, [], ap, arith, false, if◌then◌else◌, inl, inr, mem, refl, ℕ, ◌==◌, ◌∷◌,
  ◌≡◌, ==_iff, ==_refl, not, ◌∙◌,
}
use pbooru.Tags.Store.{modify, delete}

module _ {V : Type 0} where
  set_row-fresh :
      (k : ℕ) (v : V) (rows : List (ℕ × V)) → mem k (ids rows) ≡ false → set_row k v rows ≡ rows
  unfolding set_row
  set_row-fresh k v [] h = refl
  set_row-fresh k v ((id, u) ∷ rows) h = ground (arith, h, set_row-fresh k v rows, ==_iff k id)

  delete_row-fresh :
      (k : ℕ) (rows : List (ℕ × V)) → mem k (ids rows) ≡ false → delete_row k rows ≡ rows
  unfolding delete_row
  delete_row-fresh k [] h = refl
  delete_row-fresh k ((id, u) ∷ rows) h = ground (arith, h, delete_row-fresh k rows, ==_iff k id)

  replay_modify-cons :
      (xs rows : List (ℕ × V)) (k : ℕ) (v : V)
      → mem k (ids xs) ≡ false
      → replay (entries modify xs) ((k, v) ∷ rows) ≡ (k, v) ∷ replay (entries modify xs) rows
  unfolding replay entries apply set_row
  replay_modify-cons [] rows k v h = refl
  replay_modify-cons ((id, u) ∷ xs) rows k v h =
      let e : (k == id) ≡ false = ground (arith, h) in
      let kept : (if k == id then u else v) ≡ v = ground (arith, e) in
      ap (λ z. replay (entries modify xs) ((k, z) ∷ set_row id u rows)) kept
      ∙ replay_modify-cons xs (set_row id u rows) k v (ground (arith, h))

  replay-delete-cons :
      (xs rows : List (ℕ × V)) (k : ℕ) (v : V)
      → mem k (ids xs) ≡ false
      → replay (entries delete xs) ((k, v) ∷ rows) ≡ (k, v) ∷ replay (entries delete xs) rows
  unfolding replay entries apply delete_row
  replay-delete-cons [] rows k v h = refl
  replay-delete-cons ((id, u) ∷ xs) rows k v h =
      let e : (k == id) ≡ false = ground (arith, h) in
      let kept : delete_row id ((k, v) ∷ rows) ≡ (k, v) ∷ delete_row id rows = ground (arith, e) in
      ap (replay (entries delete xs)) kept
      ∙ replay-delete-cons xs (delete_row id rows) k v (ground (arith, h))

  mem-returned :
      (k : ℕ) (test : V → Bool) (f : V → V) (rows : List (ℕ × V))
      → mem k (ids rows) ≡ false
      → mem k (ids (returned test f rows)) ≡ false
  unfolding returned
  mem-returned k test f [] h = refl
  mem-returned k test f ((id, u) ∷ rows) h = ground (arith, h, mem-returned k test f rows)

  -- An update of many rows is what its entries say, one after another.
  pub replay-returned :
      (test : V → Bool) (f : V → V) (rows : List (ℕ × V))
      → IsDistinct (ids rows)
      → replay (entries modify (returned test f rows)) rows ≡ update_where test f rows
  unfolding returned update_where
  replay-returned test f [] d = unfold replay in unfold entries in refl
  replay-returned test f ((id, v) ∷ rows) (fresh, d) = elim (Bool-cases (test v)) [
    | inl e ↦ rw e (changed (replay-returned test f rows d))
    | inr e ↦ rw e (
        replay_modify-cons (returned test f rows) rows id v (mem-returned id test f rows fresh)
        ∙ ap (λ r. (id, v) ∷ r) (replay-returned test f rows d))
  ]
    where
      first :
          replay (entries modify ((id, f v) ∷ returned test f rows)) ((id, v) ∷ rows)
          ≡ replay (entries modify (returned test f rows)) ((id, f v) ∷ set_row id (f v) rows)
      first =
          unfold replay in
          unfold entries in unfold apply in unfold set_row in ground (arith, ==_refl id)

      changed :
          replay (entries modify (returned test f rows)) rows ≡ update_where test f rows
          → replay (entries modify ((id, f v) ∷ returned test f rows)) ((id, v) ∷ rows)
            ≡ (id, f v) ∷ update_where test f rows
      changed ih =
          first
          ∙ ap (λ r. replay (entries modify (returned test f rows)) ((id, f v) ∷ r))
              (set_row-fresh id (f v) rows fresh)
          ∙ replay_modify-cons (returned test f rows) rows id (f v)
              (mem-returned id test f rows fresh)
          ∙ ap (λ r. (id, f v) ∷ r) ih

  -- So is a deletion of many rows.
  pub replay-rows_where :
      (test : V → Bool) (rows : List (ℕ × V))
      → IsDistinct (ids rows)
      → replay (entries delete (rows_where test rows)) rows ≡ rows_where (λ v. not (test v)) rows
  unfolding rows_where
  replay-rows_where test [] d = unfold replay in unfold entries in refl
  replay-rows_where test ((id, v) ∷ rows) (fresh, d) = elim (Bool-cases (test v)) [
    | inl e ↦ rw e (gone (replay-rows_where test rows d))
    | inr e ↦ rw e (
        replay-delete-cons (rows_where test rows) rows id v (mem-rows_where id test rows fresh)
        ∙ ap (λ r. (id, v) ∷ r) (replay-rows_where test rows d))
  ]
    where
      first :
          replay (entries delete ((id, v) ∷ rows_where test rows)) ((id, v) ∷ rows)
          ≡ replay (entries delete (rows_where test rows)) (delete_row id rows)
      first =
          unfold replay in
          unfold entries in unfold apply in unfold delete_row in ground (arith, ==_refl id)

      gone :
          replay (entries delete (rows_where test rows)) rows ≡ rows_where (λ u. not (test u)) rows
          → replay (entries delete ((id, v) ∷ rows_where test rows)) ((id, v) ∷ rows)
            ≡ rows_where (λ u. not (test u)) rows
      gone ih =
          first
          ∙ ap (λ r. replay (entries delete (rows_where test rows)) r)
              (delete_row-fresh id rows fresh)
          ∙ ih
