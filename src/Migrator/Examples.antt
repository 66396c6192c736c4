-- ===== src/Migrator/Examples.antt =====
-- Runs of the migrator's theorems on two files, of which `b` depends on `a`.
use pbooru.Prelude.{
  ℕ, ◌<◌, ◌≡◌, refl, Bool, true, false, ◌||◌, List, [], ◌∷◌, ◌⊎◌, none, some, arith, inr, inl, ap,
  sym, ◌∙◌, Bool-cases, if◌then◌else◌,
}
use pbooru.Text.{
  Text, codes, text_eq, text_eq_iff, trim_left, trim_right, trim_space, is_space, is_trimmed,
}
use pbooru.Maps.{find}
use pbooru.Migrator.{
  File, ok, err, dependency_missing, AppliedLib, Backend, Session, has, each, enqueue_file,
  enqueue_migrations, run,
}
use pbooru.Migrator.Schedule.{IsScheduled, enqueue_migrations_total}
use pbooru.Migrator.Run.{IsDependencyClosed, run-IsDependencyClosed}
use pbooru.Migrator.FileFormat.{AreNames}

unfoldable in_names : List Text → Text → Bool
in_names [] x = false
in_names (y ∷ ys) x = text_eq x y || in_names ys x

abbrev names : AppliedLib
names = record {
  Applied = List Text;
  has_applied = in_names;
  set_applied = λ applied x. x ∷ applied;
  has-set = λ applied x y. unfold in_names in refl;
}

-- a database that keeps the texts it has executed, and refuses the empty one
abbrev journal : Backend
journal = record {
  State = List Text;
  exec = λ sql st. elim sql [ [] ↦ none | c ∷ cs ↦ some ((c ∷ cs) ∷ st) ];
  record_row = λ fid st. some st;
  program = λ fid. none;
}

abbrev a : Text
a = codes "a"

abbrev b : Text
b = codes "b"

abbrev file_a : File
file_a = record { dependencies = []; sql = codes "CREATE" }

abbrev file_b : File
file_b = record { dependencies = a ∷ []; sql = codes "ALTER" }

abbrev files : List (Text × File)
files = (b, file_b) ∷ (a, file_a) ∷ []

found :
    (f : Text) (file : File)
    → find files f ≡ some file
    → ((f ≡ b) × (file ≡ file_b)) ⊎ ((f ≡ a) × (file ≡ file_a))
unfolding find
found f file e = elim (Bool-cases (text_eq b f)) [
  | inl is_b ↦ inl (ground (arith, text_eq_iff b f), ground (arith, e, is_b))
  | inr not_b ↦ elim (Bool-cases (text_eq a f)) [
    | inl is_a ↦ inr (ground (arith, text_eq_iff a f), ground (arith, e, is_a, not_b))
    | inr not_a ↦ absurd (ground (arith, e, not_a, not_b))
  ]
]

needs :
    (f d : Text) (file : File)
    → find files f ≡ some file
    → has file.dependencies d ≡ true
    → (f ≡ b) × (d ≡ a)
unfolding has
needs f d file e m = elim (found f file e) [
  | inl (fb, at_b) ↦
      let m' : has file_b.dependencies d ≡ true =
        sym (ap (λ (x : File). has x.dependencies d) at_b) ∙ m in
      (fb, ground (arith, m', text_eq_iff a d))
  | inr (fa, at_a) ↦
      let m' : has file_a.dependencies d ≡ true =
        sym (ap (λ (x : File). has x.dependencies d) at_a) ∙ m in
      absurd (ground (arith, m'))
]

-- `b` stands behind `a`
abbrev rank : Text → ℕ
rank f = if text_eq f b then 1 else 0

rank-b : rank b ≡ 1
unfolding text_eq
rank-b = refl

rank-a : rank a ≡ 0
unfolding text_eq
rank-a = refl

find-a : find files a ≡ some file_a
unfolding find text_eq
find-a = refl

find-b : find files b ≡ some file_b
unfolding find text_eq
find-b = refl

known :
    (f d : Text) (file : File)
    → find files f ≡ some file
    → has file.dependencies d ≡ true
    → (g : File) × (find files d ≡ some g)
known f d file e m = (file_a, ap (find files) (needs f d file e m).1 ∙ find-a)

acyclic :
    (f d : Text) (file : File)
    → find files f ≡ some file
    → has file.dependencies d ≡ true
    → rank d < rank f
acyclic f d file e m =
    let (fb, da) = needs f d file e m in
    let rf : rank f ≡ 1 = ap rank fb ∙ rank-b in
    let rd : rank d ≡ 0 = ap rank da ∙ rank-a in omega arith

ordered :
    (f : Text) → has (b ∷ a ∷ []) f ≡ true → ((g : File) × (find files f ≡ some g)) × (rank f < 2)
unfolding has
ordered f m = elim (Bool-cases (text_eq b f)) [
  | inl is_b ↦
      let e : f ≡ b = ground (arith, text_eq_iff b f) in
      ((file_b, ap (find files) e ∙ find-b), ground (arith, ap rank e, rank-b))
  | inr not_b ↦
      let e : f ≡ a = ground (arith, m, text_eq_iff a f) in
      ((file_a, ap (find files) e ∙ find-a), ground (arith, ap rank e, rank-a))
]

enqueue_migrations_total_example :
    (queue : List Text) × (enqueue_migrations names 2 files [] (b ∷ a ∷ []) [] ≡ ok queue)
    × IsScheduled names files [] [] queue
    × ((f : Text) → has (b ∷ a ∷ []) f ≡ true → (in_names [] f || has queue f) ≡ true)
enqueue_migrations_total_example =
    enqueue_migrations_total names files [] rank known acyclic 2 (b ∷ a ∷ []) ordered

-- the file of `a` is missing
abbrev only_b : List (Text × File)
only_b = (b, file_b) ∷ []

missing_a : enqueue_file names 5 only_b [] b [] ≡ err (dependency_missing a)
unfolding enqueue_file each has find text_eq in_names
missing_a = refl

abbrev start : Session names journal
start = record { applied = []; state = []; rows = [] }

same_rows : (x : Text) → in_names [] x ≡ has [] x
unfolding in_names has
same_rows x = refl

nothing-IsDependencyClosed : IsDependencyClosed files []
unfolding has
nothing-IsDependencyClosed f d file r e m = absurd cc

queue-IsScheduled : IsScheduled names files [] [] (a ∷ b ∷ [])
unfolding find text_eq in_names has
queue-IsScheduled =
    ((file_a, refl, λ d m. absurd cc), refl, refl, ((file_b, refl, λ d m. m), refl, refl, tt))

run-IsDependencyClosed_example :
    IsDependencyClosed files (run names journal files (a ∷ b ∷ []) start).1.rows
run-IsDependencyClosed_example =
    run-IsDependencyClosed names journal files (a ∷ b ∷ []) start same_rows
      nothing-IsDependencyClosed queue-IsScheduled

names-AreNames : AreNames (a ∷ b ∷ [])
unfolding is_trimmed trim_left trim_right trim_space is_space text_eq
names-AreNames = (refl, refl, (refl, refl, tt))
