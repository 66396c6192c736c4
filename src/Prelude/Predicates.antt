-- ===== src/Prelude/Predicates.antt =====
-- A predicate that every element of a list has.
use mathlib.Core.Bool.{Bool, true}
use mathlib.Core.List.{List, [], ◌∷◌}
use mathlib.Core.Path.{◌≡◌}
use mathlib.Core.Logic.{inl, inr}
use pbooru.Prelude.Lists.{keep}
use pbooru.Prelude.Tests.{Bool-cases}

abbrev pub All {ℓ κ} : {A : Type ℓ} → (A → Type κ) → List A → Type κ
All P [] = Unit
All P (x ∷ xs) = P x × All P xs

pub All-keep {ℓ κ μ} :
    {A : Type ℓ} (P : A → Type κ) (Q : A → Type μ) (test : A → Bool) (xs : List A)
    → ((x : A) → P x → test x ≡ true → Q x)
    → All P xs
    → All Q (keep test xs)
All-keep P Q test [] h a = tt
All-keep P Q test (x ∷ xs) h (p, a) = elim (Bool-cases (test x)) [
  | inl e ↦ rw e (h x p e, All-keep P Q test xs h a)
  | inr e ↦ rw e (All-keep P Q test xs h a)
]

pub All-map {ℓ κ μ} :
    {A : Type ℓ} (P : A → Type κ) (Q : A → Type μ) (xs : List A)
    → ((x : A) → P x → Q x)
    → All P xs
    → All Q xs
All-map P Q [] h a = tt
All-map P Q (x ∷ xs) h (p, a) = (h x p, All-map P Q xs h a)
