-- ===== src/Maps/Ints.antt =====
-- Go's maps with numbers as keys.
use pbooru.Prelude.{ℕ, ==_iff, List, Option, [], arith, if◌then◌else◌, none, some, ◌==◌, ◌∷◌, ◌≡◌}

module _ {ℓ} {V : Type ℓ} where
  unfoldable pub find_at : List (ℕ × V) → ℕ → Option V
  find_at [] k = none
  find_at ((j, v) ∷ rest) k = if j == k then some v else find_at rest k

  unfoldable pub delete_at : List (ℕ × V) → ℕ → List (ℕ × V)
  delete_at [] k = []
  delete_at ((j, v) ∷ m) k = let rest = delete_at m k in if j == k then rest else (j, v) ∷ rest

  unfoldable pub put_at : List (ℕ × V) → ℕ → V → List (ℕ × V)
  put_at m k v = (k, v) ∷ delete_at m k

  pub find_at-delete_at :
      (m : List (ℕ × V)) (k j : ℕ)
      → find_at (delete_at m k) j ≡ (if k == j then none else find_at m j)
  unfolding find_at delete_at
  find_at-delete_at [] k j = ground arith
  find_at-delete_at ((i, v) ∷ m) k j =
      ground (arith, find_at-delete_at m k j, ==_iff i k, ==_iff i j, ==_iff k j)

  pub find_at-put_at :
      (m : List (ℕ × V)) (k j : ℕ) (v : V)
      → find_at (put_at m k v) j ≡ (if k == j then some v else find_at m j)
  unfolding find_at put_at
  find_at-put_at m k j v = ground (arith, find_at-delete_at m k j)
