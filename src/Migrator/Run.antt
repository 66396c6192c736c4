-- ===== src/Migrator/Run.antt =====
-- What the loop of `update` in DataManager/datamanager.go leaves in schema_migrations.
use pbooru.Prelude.{
  ◌≡◌, refl, sym, ◌∙◌, ap, true, ◌||◌, List, [], ◌∷◌, ◌++◌, ◌⊎◌, Option, none, some, arith,
  Bool-cases, Option-cases, inl, inr,
}
use mathlib.Core.Path.{subst}
use mathlib.Core.List.{append_assoc, append-nil}
use pbooru.Text.{Text, text_eq_iff}
use pbooru.Maps.{find}
use pbooru.Migrator.{
  File, Error, ok, err, AppliedLib, Backend, Session, has, execute_file, run, sql_of, run_program,
  failed_migration, failed_statement,
}
use pbooru.Migrator.Schedule.{IsScheduled, has-append}

-- with a migration, the rows hold its dependencies
abbrev pub IsDependencyClosed : List (Text × File) → List Text → Type 0
IsDependencyClosed files rows =
    (f d : Text) (file : File)
    → has rows f ≡ true
    → find files f ≡ some file
    → has file.dependencies d ≡ true
    → has rows d ≡ true

module _ (L : AppliedLib) (B : Backend) (files : List (Text × File)) where
  open L use {Applied, has_applied, set_applied, has-set}
  open B use {exec, record_row}

  execute_file-cases :
      (fid : Text) (s : Session L B)
      → ((e : Error) × (execute_file L B files fid s ≡ err e))
        ⊎ ((s' : Session L B) × (execute_file L B files fid s ≡ ok s')
            × (s'.rows ≡ s.rows ++ fid ∷ [])
            × (s'.applied ≡ set_applied s.applied fid))
  unfolding execute_file
  execute_file-cases fid s = elim (Option-cases (exec (sql_of L B files fid) s.state)) [
    | inl e ↦ inl (failed_migration fid, ground (arith, e))
    | inr (st, e) ↦ elim (Option-cases (record_row fid st)) [
      | inl e' ↦ inl (failed_statement, ground (arith, e, e'))
      | inr (st', e') ↦ elim (Option-cases (run_program L B fid st')) [
        | inl e'' ↦ inl (failed_statement, rw (e, e', e'', execute_file) refl)
        | inr (st'', e'') ↦ inr (
          record { applied = set_applied s.applied fid; state = st''; rows = s.rows ++ fid ∷ [] },
          rw (e, e', e'', execute_file) refl,
          refl,
          refl,
        )
      ]
    ]
  ]

  run_err :
      (fid : Text) (queue : List Text) (s : Session L B) (e : Error)
      → execute_file L B files fid s ≡ err e
      → run L B files (fid ∷ queue) s ≡ (some e, record s { applied = set_applied s.applied fid })
  unfolding run
  run_err fid queue s e h = ground (arith, h)

  run_ok :
      (fid : Text) (queue : List Text) (s s' : Session L B)
      → execute_file L B files fid s ≡ ok s'
      → run L B files (fid ∷ queue) s ≡ run L B files queue s'
  unfolding run
  run_ok fid queue s s' h = ground (arith, h)

  run_closed :
      (start : Applied) (seen queue : List Text) (s : Session L B)
      → ((x : Text) → has s.rows x ≡ (has_applied start x || has seen x))
      → IsDependencyClosed files s.rows
      → IsScheduled L files start seen queue
      → IsDependencyClosed files (run L B files queue s).1.rows
  unfolding run
  run_closed start seen [] s same closed sched = closed
  run_closed start seen (fid ∷ queue) s same closed ((file, e, ready), n, fresh, rest) =
      elim (execute_file-cases fid s) [
        | inl (er, h) ↦
            subst (λ r. IsDependencyClosed files r.1.rows) (sym (run_err fid queue s er h)) closed
        | inr (s', h, rows, _) ↦
            let now = λ (x : Text). ap (λ r. has r x) rows ∙ has-append s.rows (fid ∷ []) x in
            let closed' : IsDependencyClosed files s'.rows = λ f d g m k u.
              now d ∙ elim (Bool-cases (has s.rows f)) [
                | inl old ↦ ground (arith, closed f d g old k u)
                | inr new ↦
                    let this : fid ≡ f =
                      (text_eq_iff fid f).0 (unfold has in ground (arith, now f)) in
                    let own : file ≡ g = cc (ap (find files) this) in
                    ground (arith, same d, ready d, ap (λ (z : File). has z.dependencies d) own)
              ] in
            subst (λ r. IsDependencyClosed files r.1.rows) (sym (run_ok fid queue s s' h))
              (run_closed start (seen ++ fid ∷ []) queue s'
                (λ x. ground (arith, now x, same x, has-append seen (fid ∷ []) x)) closed' rest)
      ]

  -- Executing a scheduled queue leaves the rows of schema_migrations closed under dependencies,
  -- whether it ends or fails at some migration, if they were so before and are the applied set.
  pub run-IsDependencyClosed :
      (queue : List Text) (s : Session L B)
      → ((x : Text) → has_applied s.applied x ≡ has s.rows x)
      → IsDependencyClosed files s.rows
      → IsScheduled L files s.applied [] queue
      → IsDependencyClosed files (run L B files queue s).1.rows
  run-IsDependencyClosed queue s same closed sched =
      run_closed s.applied [] queue s (λ x. unfold has in ground (arith, same x)) closed sched

  -- how a run over `rest` begins: it is at its end, or the next migration fails
  abbrev pub Stops : Option Error → List Text → List Text → Type 0
  Stops none rows rest = rest ≡ []
  Stops (some e) rows rest =
      (fid : Text) × (later : List Text) × (t : Session L B) × (rest ≡ fid ∷ later)
      × (t.rows ≡ rows)
      × (execute_file L B files fid t ≡ err e)

  -- The rows of schema_migrations grow by a prefix of the queue, in its order: by all of it if no
  -- error is returned, and else up to the migration whose execution, at these rows, failed with
  -- that error.
  pub run_rows :
      (queue : List Text) (s : Session L B)
      → (done rest : List Text) × (queue ≡ done ++ rest)
        × ((run L B files queue s).1.rows ≡ s.rows ++ done)
        × Stops (run L B files queue s).0 (run L B files queue s).1.rows rest
  run_rows [] s = unfold run in ([], [], refl, sym (append-nil s.rows), refl)
  run_rows (fid ∷ queue) s = elim (execute_file-cases fid s) [
    | inl (e, h) ↦
        rw (run_err fid queue s e h)
          ([], fid ∷ queue, refl, sym (append-nil s.rows), (fid, queue, s, refl, refl, h))
    | inr (s', h, rows, applied) ↦
        let (done, rest, split, after, stops) = run_rows queue s' in
        rw (run_ok fid queue s s' h) (
          fid ∷ done,
          rest,
          ap (λ q. fid ∷ q) split,
          after ∙ ap (λ r. r ++ done) rows ∙ append_assoc s.rows (fid ∷ []) done,
          stops,
        )
  ]
