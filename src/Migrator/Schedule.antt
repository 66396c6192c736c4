-- ===== src/Migrator/Schedule.antt =====
-- The queue that `EnqueueMigrations` of DataManager/migrator/migrate.go builds.
use pbooru.Prelude.{
  ℕ, zero, suc, ◌<◌, ◌≤◌, ◌≡◌, refl, sym, ◌∙◌, ap, true, false, ◌||◌, List, [], ◌∷◌, ◌++◌, some,
  arith, Bool-cases, inl, inr,
}
use mathlib.Core.Bool.{false≢true}
use mathlib.Core.List.{append_assoc, append-nil}
use pbooru.Text.{Text, text_eq, text_eq_iff, text_eq_refl}
use pbooru.Maps.{find}
use pbooru.Migrator.{File, ok, ◌>>=◌, AppliedLib, has, each, enqueue_file, enqueue_migrations}

pub has-append : (q r : List Text) (x : Text) → has (q ++ r) x ≡ (has q x || has r x)
unfolding has
has-append [] r x = refl
has-append (a ∷ q) r x = ground (arith, has-append q r x)

module _ (L : AppliedLib) where
  open L use {Applied, has_applied, set_applied}

  -- `seen`, then `queue`: each migration has its file, was not applied, was not queued before, and
  -- its dependencies are applied or stand before it
  abbrev pub IsScheduled : List (Text × File) → Applied → List Text → List Text → Type 0
  IsScheduled files applied seen [] = Unit {0}
  IsScheduled files applied seen (f ∷ queue) =
      ((file : File) × (find files f ≡ some file)
        × ((d : Text)
            → has file.dependencies d ≡ true
            → (has_applied applied d || has seen d) ≡ true))
      × (has_applied applied f ≡ false)
      × (has seen f ≡ false)
      × IsScheduled files applied (seen ++ f ∷ []) queue

  module _ (files : List (Text × File)) (applied : Applied) where
    IsScheduled-snoc :
        (seen queue : List Text) (f : Text) (file : File)
        → IsScheduled files applied seen queue
        → find files f ≡ some file
        → ((d : Text)
            → has file.dependencies d ≡ true
            → (has_applied applied d || has (seen ++ queue) d) ≡ true)
        → has_applied applied f ≡ false
        → has (seen ++ queue) f ≡ false
        → IsScheduled files applied seen (queue ++ f ∷ [])
    IsScheduled-snoc seen [] f file s e ready new fresh = (
      (
        file,
        e,
        λ d m. ap (λ z. has_applied applied d || has z d) (sym (append-nil seen)) ∙ ready d m,
      ),
      new,
      ap (λ z. has z f) (sym (append-nil seen)) ∙ fresh,
      tt,
    )
    IsScheduled-snoc seen (g ∷ queue) f file (own, n, s, rest) e ready new fresh = (
      own,
      n,
      s,
      IsScheduled-snoc (seen ++ g ∷ []) queue f file rest e
          (λ d m.
            ap (λ z. has_applied applied d || has z d) (append_assoc seen (g ∷ []) queue)
            ∙ ready d m)
          new (ap (λ z. has z f) (append_assoc seen (g ∷ []) queue) ∙ fresh),
    )

  module _ (files : List (Text × File)) (applied : Applied) (rank : Text → ℕ)
      (known : (f d : Text) (file : File)
        → find files f ≡ some file
        → has file.dependencies d ≡ true
        → (g : File) × (find files d ≡ some g))
      (acyclic : (f d : Text) (file : File)
        → find files f ≡ some file
        → has file.dependencies d ≡ true
        → rank d < rank f) where
    -- the queue grew by migrations of rank below `b`
    record Grown (b : ℕ) (q q' : List Text) : Type 0 where
      kept : (x : Text) → has q x ≡ true → has q' x ≡ true
      below : (x : Text) → has q x ≡ false → has q' x ≡ true → rank x < b
      scheduled : IsScheduled files applied [] q'

    abbrev Enqueues : ℕ → Type 0
    Enqueues fuel =
        (d : Text) (g : File) (q : List Text)
        → find files d ≡ some g
        → rank d < fuel
        → IsScheduled files applied [] q
        → (q' : List Text) × (enqueue_file L fuel files applied d q ≡ ok q')
          × Grown (suc (rank d)) q q'
          × ((has_applied applied d || has q' d) ≡ true)

    each_total :
        (fuel b : ℕ) (ds q : List Text)
        → Enqueues fuel
        → b ≤ fuel
        → ((d : Text) → has ds d ≡ true → ((g : File) × (find files d ≡ some g)) × (rank d < b))
        → IsScheduled files applied [] q
        → (q' : List Text) × (each (enqueue_file L fuel files applied) ds q ≡ ok q')
          × Grown b q q'
          × ((d : Text) → has ds d ≡ true → (has_applied applied d || has q' d) ≡ true)
    unfolding each has
    each_total fuel b [] q step le all s = (
      q,
      refl,
      record { kept = λ x h. h; below = λ x n h. absurd (false≢true (sym n ∙ h)); scheduled = s },
      λ d h. absurd (false≢true h),
    )
    each_total fuel b (d ∷ ds) q step le all s =
        let ((g, e), r) = all d (ground (arith, text_eq_refl d)) in
        let (q1, e1, grown1, in1) = step d g q e (omega (arith, r, le)) s in
        let (q2, e2, grown2, in2) =
          each_total fuel b ds q1 step le (λ x h. all x (ground arith)) grown1.scheduled in
        (
          q2,
          ap (λ m. m >>= each (enqueue_file L fuel files applied) ds) e1 ∙ e2,
          record {
            kept = λ x h. grown2.kept x (grown1.kept x h);
            below = λ x n h. elim (Bool-cases (has q1 x)) [
              | inl m ↦ omega (arith, grown1.below x n m, r)
              | inr m ↦ grown2.below x m h
            ];
            scheduled = grown2.scheduled;
          },
          λ x h. elim (Bool-cases (text_eq d x)) [
            | inl same ↦
                let e' : d ≡ x = (text_eq_iff d x).0 same in
                ap (λ z. has_applied applied z || has q2 z) (sym e')
                ∙ ground (arith, in1, grown2.kept d)
            | inr other ↦ in2 x (ground arith)
          ],
        )

    enqueue_file_total : (fuel : ℕ) → Enqueues fuel
    unfolding enqueue_file
    enqueue_file_total zero d g q e le s = absurd (omega arith)
    enqueue_file_total (suc fuel) d g q e le s =
        elim (Bool-cases (has q d || has_applied applied d)) [
          | inl skip ↦ (
            q,
            ground (arith, e),
            record {
              kept = λ x h. h;
              below = λ x n h. absurd (false≢true (sym n ∙ h));
              scheduled = s;
            },
            ground arith,
          )
          | inr more ↦
              let (q1, e1, grown, ready) =
                each_total fuel (rank d) g.dependencies q (enqueue_file_total fuel) (omega arith)
                  (λ x h. (known d x g e h, acyclic d x g e h)) s in
              let fresh : has q1 d ≡ false = elim (Bool-cases (has q1 d)) [
                | inl in' ↦ absurd (omega (arith, grown.below d (ground arith) in'))
                | inr out ↦ out
              ] in
              (
                q1 ++ d ∷ [],
                ground (arith, e, e1),
                record {
                  kept = λ x h. ground (arith, has-append q1 (d ∷ []) x, grown.kept x h);
                  below = λ x n h. elim (Bool-cases (has q1 x)) [
                    | inl m ↦ omega (arith, grown.below x n m)
                    | inr m ↦
                        let same : d ≡ x =
                          (text_eq_iff d x).0
                            (unfold has in ground (arith, has-append q1 (d ∷ []) x)) in
                        omega (arith, ap rank same)
                  ];
                  scheduled =
                      IsScheduled-snoc files applied [] q1 d g grown.scheduled e ready
                        (ground arith) fresh;
                },
                unfold has in ground (arith, has-append q1 (d ∷ []) d, text_eq_refl d),
              )
        ]

    -- If every dependency has its file and dependencies have a smaller rank, then with fuel above
    -- every rank `EnqueueMigrations` succeeds from an empty queue, in whatever order the map gives
    -- the files. In the queue each migration has its file, is not applied, stands once, and stands
    -- behind its dependencies that are not applied; every file is applied or in the queue.
    pub enqueue_migrations_total :
        (fuel : ℕ) (order : List Text)
        → ((f : Text)
            → has order f ≡ true
            → ((g : File) × (find files f ≡ some g)) × (rank f < fuel))
        → (queue : List Text) × (enqueue_migrations L fuel files applied order [] ≡ ok queue)
          × IsScheduled files applied [] queue
          × ((f : Text) → has order f ≡ true → (has_applied applied f || has queue f) ≡ true)
    unfolding enqueue_migrations
    enqueue_migrations_total fuel order all =
        let (q, e, grown, ins) =
          each_total fuel fuel order [] (enqueue_file_total fuel) (omega arith) all tt in
        (q, e, grown.scheduled, ins)
