-- ===== src/Migrator/Cycles.antt =====
-- How `enqueueFile` of DataManager/migrator/migrate.go fails.
use pbooru.Prelude.{
  ℕ, zero, suc, ◌≡◌, refl, false, List, [], ◌∷◌, ◌⊎◌, none, some, arith, Option-cases, inl, inr,
}
use pbooru.Text.{Text}
use pbooru.Maps.{find}
use pbooru.Migrator.{
  File, Error, Result, ok, err, AppliedLib, has, each, enqueue_file, out_of_fuel,
  dependency_missing,
}

Result-cases :
    (r : Result (List Text)) → ((q : List Text) × (r ≡ ok q)) ⊎ ((e : Error) × (r ≡ err e))
Result-cases (ok q) = inl (q, refl)
Result-cases (err e) = inr (e, refl)

module _ (L : AppliedLib) (files : List (Text × File)) where
  open L use {Applied, has_applied}

  -- Migrations that are not applied and each of which names another of them as its first dependency
  -- are never scheduled: `enqueueFile` calls itself without end, at every depth.
  pub enqueue_file_cycle :
      (applied : Applied) (InCycle : Text → Type 0)
      → ((f : Text)
          → InCycle f
          → (has_applied applied f ≡ false)
            × (d : Text) × (rest : List Text) × (sql : Text) × InCycle d
            × (find files f ≡ some (record { dependencies = d ∷ rest; sql = sql })))
      → (fuel : ℕ) (f : Text) (queue : List Text) → InCycle f
      → ((g : Text) → InCycle g → has queue g ≡ false)
      → enqueue_file L fuel files applied f queue ≡ err out_of_fuel
  unfolding enqueue_file each
  enqueue_file_cycle applied InCycle cycle zero f queue c out = refl
  enqueue_file_cycle applied InCycle cycle (suc fuel) f queue c out =
      let (n, d, rest, sql, c', e) = cycle f c in
      ground (arith, e, n, out f c, enqueue_file_cycle applied InCycle cycle fuel d queue c' out)

  abbrev IsMissing : Error → Type 0
  IsMissing e =
      (e ≡ out_of_fuel) ⊎ ((d : Text) × (e ≡ dependency_missing d) × (find files d ≡ none))

  each_errors :
      (f : Text → List Text → Result (List Text))
      → ((d : Text) (q : List Text) (e : Error) → f d q ≡ err e → IsMissing e)
      → (ds q : List Text) (e : Error) → each f ds q ≡ err e
      → IsMissing e
  unfolding each
  each_errors f step [] q e h = absurd (cc)
  each_errors f step (d ∷ ds) q e h = elim (Result-cases (f d q)) [
    | inl (q', p) ↦ each_errors f step ds q' e (ground (arith, p))
    | inr (e', p) ↦ step d q e (ground (arith, p))
  ]

  -- Whatever the files are, an error of `enqueueFile` other than running out of fuel names a
  -- migration that has no file.
  pub enqueue_file_errors :
      (applied : Applied) (fuel : ℕ) (f : Text) (queue : List Text) (e : Error)
      → enqueue_file L fuel files applied f queue ≡ err e
      → (e ≡ out_of_fuel) ⊎ ((d : Text) × (e ≡ dependency_missing d) × (find files d ≡ none))
  unfolding enqueue_file
  enqueue_file_errors applied zero f queue e h = inl (cc)
  enqueue_file_errors applied (suc fuel) f queue e h = elim (Option-cases (find files f)) [
    | inl missing ↦ inr (f, ground arith, missing)
    | inr (file, found) ↦
        elim (Result-cases (each (enqueue_file L fuel files applied) file.dependencies queue)) [
          | inl (q', p) ↦ absurd (ground (arith, p, found))
          | inr (e', p) ↦
              each_errors (enqueue_file L fuel files applied) (enqueue_file_errors applied fuel)
                file.dependencies queue e (ground (arith, p, found))
        ]
  ]
