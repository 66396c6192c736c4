-- ===== src/Maps.antt =====
-- Go's maps with text keys, as association lists: `m[k]`, `m[k] = v` and `delete(m, k)`.
pub mod Ints
use pbooru.Prelude.{◌≡◌, List, [], ◌∷◌, Option, none, some, arith, if◌then◌else◌}
use pbooru.Text.{Text, text_eq, text_eq_iff}

module _ {ℓ} {V : Type ℓ} where
  unfoldable pub find : List (Text × V) → Text → Option V
  find [] k = none
  find ((j, v) ∷ rest) k = if text_eq j k then some v else find rest k

  unfoldable pub delete : List (Text × V) → Text → List (Text × V)
  delete [] k = []
  delete ((j, v) ∷ m) k = let rest = delete m k in if text_eq j k then rest else (j, v) ∷ rest

  unfoldable pub put : List (Text × V) → Text → V → List (Text × V)
  put m k v = (k, v) ∷ delete m k

  pub find-delete :
      (m : List (Text × V)) (k j : Text)
      → find (delete m k) j ≡ (if text_eq k j then none else find m j)
  unfolding find delete
  find-delete [] k j = ground arith
  find-delete ((i, v) ∷ m) k j =
      ground (arith, find-delete m k j, text_eq_iff i k, text_eq_iff i j, text_eq_iff k j)

  pub find-put :
      (m : List (Text × V)) (k j : Text) (v : V)
      → find (put m k v) j ≡ (if text_eq k j then some v else find m j)
  unfolding find put
  find-put m k j v = ground (arith, find-delete m k j)
