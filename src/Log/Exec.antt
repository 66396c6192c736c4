-- ===== src/Log/Exec.antt =====
-- What a run of a user's actions logs: `exec` of DataManager/log.go.
use mathlib.Core.Path.{subst}
use pbooru.Prelude.{
  ==_iff, ==_refl, >>=-eq-ok, Bool-cases, List, [], ap, arith, err, false, if◌then◌else◌, inl, inr,
  is_empty, mem, mem-append, ok, refl, sym, true, ℕ, ◌&&◌, ◌++◌, ◌+◌, ◌==◌, ◌||◌, ◌∙◌, ◌∷◌, ◌≡◌,
  ◌≤◌,
}
use pbooru.Database.{Table, has_row}
use pbooru.PostTags.Statements.{IsUnique}
use pbooru.Sets.{IsDistinct}
use pbooru.Log.Told.{Told, Acted, Called, names, loggers, run_actions-Acted, call_all-Called}
use pbooru.Log.{
  Logger, LoggingAction, Db, add_tables, insert_tables, valid, run_actions, tables_of, call_all,
  insert_log, exec,
}

mem-add_tables :
    (x : ℕ) (ts tables : List ℕ) → mem x (add_tables ts tables) ≡ (mem x ts || mem x tables)
unfolding add_tables
mem-add_tables x [] tables = refl
mem-add_tables x (t ∷ ts) tables = ground (
  arith,
  mem-add_tables x ts (if mem t tables then tables else tables ++ t ∷ []),
  mem-append x tables (t ∷ []),
  ==_iff x t,
  λ (e : x ≡ t). ap (λ z. mem z tables) e,
)

snoc-IsDistinct :
    (t : ℕ) (xs : List ℕ) → mem t xs ≡ false → IsDistinct xs → IsDistinct (xs ++ t ∷ [])
snoc-IsDistinct t [] out d = (refl, tt)
snoc-IsDistinct t (x ∷ xs) out (fresh, d) = (
  ground (arith, mem-append x xs (t ∷ []), fresh, out, ==_iff x t, ==_iff t x),
  snoc-IsDistinct t xs (ground (arith, out)) d,
)

add_tables-IsDistinct : (ts tables : List ℕ) → IsDistinct tables → IsDistinct (add_tables ts tables)
unfolding add_tables
add_tables-IsDistinct [] tables d = d
add_tables-IsDistinct (t ∷ ts) tables d = elim (Bool-cases (mem t tables)) [
  | inl e ↦ ground (arith, e, add_tables-IsDistinct ts tables d)
  | inr e ↦
      ground (arith, e, add_tables-IsDistinct ts (tables ++ t ∷ []) (snoc-IsDistinct t tables e d))
]

has_row-insert_tables :
    (log : ℕ) (ts names : List ℕ) (altered : Table) (i t : ℕ)
    → has_row i t (insert_tables log ts names altered).1
      ≡ (i == log && mem t ts || has_row i t altered)
unfolding insert_tables
has_row-insert_tables log [] names altered i t = ground arith
has_row-insert_tables log (x ∷ ts) names altered i t = ground (
  arith,
  has_row-insert_tables log ts (if mem x names then names else x ∷ names) ((log, x) ∷ altered) i t,
)

insert_tables-IsUnique :
    (log : ℕ) (ts names : List ℕ) (altered : Table)
    → IsDistinct ts
    → IsUnique altered
    → ((t : ℕ) → mem t ts ≡ true → has_row log t altered ≡ false)
    → IsUnique (insert_tables log ts names altered).1
unfolding insert_tables
insert_tables-IsUnique log [] names altered d u new' = u
insert_tables-IsUnique log (x ∷ ts) names altered (fresh, d) u new' =
    insert_tables-IsUnique log ts _ ((log, x) ∷ altered) d (new' x (ground (arith, ==_refl x)), u)
      (λ t m. ground (arith, m, new' t, fresh, ==_iff t x, λ (z : t ≡ x). ap (λ y. mem y ts) z))

module _ {S : Type 0} where
  -- log ids from `next_log` on are not in use
  abbrev pub IsNumbered : Db S → Type 0
  IsNumbered db = (i t : ℕ) → db.next_log ≤ i → has_row i t db.logs_tables_altered ≡ false

  abbrev Keeps : Db S → Type 0
  Keeps db = IsNumbered db × IsUnique db.logs_tables_altered

module _ {S E : Type 0} where
  mem-tables_of :
      (t : ℕ) (told : List (Told S E)) (tables : List ℕ)
      → mem t (tables_of (loggers told) tables) ≡ (names t told || mem t tables)
  unfolding tables_of
  mem-tables_of t [] tables = refl
  mem-tables_of t ((ts, fn) ∷ told) tables =
      ground (arith, mem-tables_of t told (add_tables ts tables), mem-add_tables t ts tables)

  tables_of-IsDistinct :
      (logs : List (Logger S E)) (tables : List ℕ)
      → IsDistinct tables
      → IsDistinct (tables_of logs tables)
  unfolding tables_of
  tables_of-IsDistinct [] tables d = d
  tables_of-IsDistinct (l ∷ logs) tables d =
      tables_of-IsDistinct logs (add_tables l.tables tables)
        (add_tables-IsDistinct l.tables tables d)

  -- what a run leaves that told the list and led the domain to `s` before the log
  abbrev pub IsLogged : ℕ → Db S → Db S → S → List (Told S E) → Type 0
  IsLogged user db db' s [] = db' ≡ (record db { domain = s })
  IsLogged user db db' s (x ∷ told) =
      (db'.logs ≡ (db.next_log, user) ∷ db.logs)
      × Called db.next_log (x ∷ told) s db'.domain
      × ((i t : ℕ)
          → has_row i t db'.logs_tables_altered
            ≡ (i == db.next_log && names t (x ∷ told) || has_row i t db.logs_tables_altered))

  logged :
      (user : ℕ) (s : S) (told : List (Told S E)) (db db' : Db S)
      → Keeps db
      → (if is_empty (loggers told)
          then ok (record db { domain = s })
          else insert_log user (loggers told) (record db { domain = s }))
        ≡ ok db'
      → Keeps db' × IsLogged user db db' s told
  unfolding insert_log
  logged user s [] db db' k h =
      let same : (record db { domain = s }) ≡ db' = ground (arith, h) in
      (subst Keeps same k, sym same)
  logged user s (x ∷ told) db db' (numbered, unique) h =
      let logs = loggers (x ∷ told) in
      let (s', e, h1) = >>=-eq-ok (call_all logs db.next_log s) _ h in
      let ts = tables_of logs [] in
      let out : Db S = record {
        domain = s';
        next_log = db.next_log + 1;
        logs = (db.next_log, user) ∷ db.logs;
        logs_tables = (insert_tables db.next_log ts db.logs_tables db.logs_tables_altered).0;
        logs_tables_altered =
            (insert_tables db.next_log ts db.logs_tables db.logs_tables_altered).1;
      } in
      let same : out ≡ db' = ground (arith, h1) in
      let rows = has_row-insert_tables db.next_log ts db.logs_tables db.logs_tables_altered in
      subst (λ z. Keeps z × IsLogged user db z s (x ∷ told)) same
        (
          (
            λ i t le. ground (arith, rows i t, numbered i t, le),
            insert_tables-IsUnique db.next_log ts db.logs_tables db.logs_tables_altered
                (tables_of-IsDistinct logs [] tt) unique
                (λ t m. numbered db.next_log t (ground arith)),
          ),
          (
            refl,
            call_all-Called (x ∷ told) db.next_log s s' e,
            λ i t. ground (arith, rows i t, mem-tables_of t (x ∷ told) []),
          ),
        )

  -- A run of actions that succeeds writes no log if no action tells something, which takes a table and a
  -- log function. Else it writes one row of the user, under which every table that a telling action
  -- names is listed once and no other, and calls the log functions of the telling actions in the order
  -- of the actions. Log ids stay unused from the next on.
  pub exec-IsLogged :
      (user : ℕ) (actions : List (LoggingAction S E)) (db db' : Db S)
      → IsNumbered db
      → IsUnique db.logs_tables_altered
      → exec user actions db ≡ ok db'
      → (s : S) × (told : List (Told S E)) × Acted actions db.domain s told
        × IsNumbered db'
        × IsUnique db'.logs_tables_altered
        × IsLogged user db db' s told
  unfolding exec
  exec-IsLogged user actions db db' numbered unique h =
      let ((s, logs), e, h1) = >>=-eq-ok (run_actions actions db.domain []) _ h in
      let (told, acted, same) = run_actions-Acted actions db.domain s [] logs e in
      let ((n, u), done) =
        logged user s told db db' (numbered, unique)
          (subst
            (λ (z : List (Logger S E)).
              (if is_empty z
                then ok (record db { domain = s })
                else insert_log user z (record db { domain = s }))
              ≡ ok db')
            same h1) in
      (s, told, acted, n, u, done)

  run_actions_fails :
      (before after : List (LoggingAction S E)) (act : LoggingAction S E) (s s1 : S)
      (logs logs1 : List (Logger S E)) (why : E)
      → run_actions before s logs ≡ ok (s1, logs1)
      → act s1 ≡ err why
      → run_actions (before ++ act ∷ after) s logs ≡ err why
  unfolding run_actions
  run_actions_fails [] after act s s1 logs logs1 why h fails =
      let same : s ≡ s1 = ground (arith, h) in
      let failed : act s ≡ err why = ap act same ∙ fails in ground (arith, failed)
  run_actions_fails (a ∷ before) after act s s1 logs logs1 why h fails =
      let ((s', l), e, h1) = >>=-eq-ok (a s) _ h in
      ground (
        arith,
        e,
        run_actions_fails before after act s' s1 (if valid l then logs ++ l ∷ [] else logs) logs1
            why h1 fails,
      )

  -- If the actions before one succeed and it fails, the run fails with its error, whatever follows it.
  pub exec_fails :
      (user : ℕ) (before after : List (LoggingAction S E)) (act : LoggingAction S E) (db : Db S)
      (s1 : S) (logs1 : List (Logger S E)) (why : E)
      → run_actions before db.domain [] ≡ ok (s1, logs1)
      → act s1 ≡ err why
      → exec user (before ++ act ∷ after) db ≡ err why
  unfolding exec
  exec_fails user before after act db s1 logs1 why h fails =
      ground (arith, run_actions_fails before after act db.domain s1 [] logs1 why h fails)
