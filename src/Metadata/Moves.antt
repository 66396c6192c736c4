-- ===== src/Metadata/Moves.antt =====
-- What moveMetadata of DataManager/duplicates.go does to the metadata of all posts.
use pbooru.Text.{Text, text_eq_iff}
use pbooru.Database.{Table, has_row}
use pbooru.Log.{Logger, run_actions, valid}
use pbooru.Metadata.Facts.{
  same, is_known, removed, added, has, has-removed, has-added, add_data-eq, remove_data-eq,
}
use pbooru.Prelude.{
  ==_iff, Bool, List, [], ap, arith, false, if◌then◌else◌, mem, not, ok, refl, true, ℕ, ◌&&◌, ◌++◌,
  ◌==◌, ◌||◌, ◌∙◌, ◌∷◌, ◌≡◌,
}
use pbooru.Metadata.{
  MetaData, MetaRow, State, meta, date, removals, additions, metas_of, dates_of, q_metadata,
  update_post_creation_date, Error, has_meta, MetaAction, is_row,
}

unfoldable pub mem_data : MetaData → List MetaData → Bool
unfolding same
mem_data m [] = false
mem_data m (k ∷ ms) = same m k || mem_data m ms

unfoldable pub all_known : List MetaData → List ℕ → Bool
unfolding is_known
all_known [] names = true
all_known (m ∷ ms) names = is_known m names && all_known ms names

pub mem_data-append :
    (m : MetaData) (ms ks : List MetaData)
    → mem_data m (ms ++ ks) ≡ (mem_data m ms || mem_data m ks)
unfolding mem_data
mem_data-append m [] ks = refl
mem_data-append m (k ∷ ms) ks = ground (arith, mem_data-append m ms ks)

pub all_known-append :
    (ms ks : List MetaData) (names : List ℕ)
    → all_known (ms ++ ks) names ≡ (all_known ms names && all_known ks names)
unfolding all_known
all_known-append [] ks names = refl
all_known-append (k ∷ ms) ks names = ground (arith, all_known-append ms ks names)

pub removed_all : ℕ → List MetaData → State → State
removed_all q [] s = s
removed_all q (m ∷ ms) s = removed_all q ms (removed q m s)

pub added_all : ℕ → List MetaData → State → State
added_all p [] s = s
added_all p (m ∷ ms) s = added_all p ms (added p m s)

pub has-removed_all :
    (x q : ℕ) (m : MetaData) (ms : List MetaData) (s : State)
    → has x m (removed_all q ms s) ≡ (has x m s && not (x == q && mem_data m ms))
unfolding removed_all mem_data
has-removed_all x q m [] s = ground arith
has-removed_all x q m (k ∷ ms) s =
    ground (arith, has-removed_all x q m ms (removed q k s), has-removed x q m k s)

pub has-added_all :
    (x p : ℕ) (m : MetaData) (ms : List MetaData) (s : State)
    → has x m (added_all p ms s) ≡ (x == p && mem_data m ms || has x m s)
unfolding added_all mem_data
has-added_all x p m [] s = ground arith
has-added_all x p m (k ∷ ms) s =
    ground (arith, has-added_all x p m ms (added p k s), has-added x p m k s)

names-removed : (q : ℕ) (m : MetaData) (s : State) → (removed q m s).namespaces ≡ s.namespaces
unfolding removed update_post_creation_date
names-removed q (date d) s = refl
names-removed q (meta n v) s = refl

names-added : (q : ℕ) (m : MetaData) (s : State) → (added q m s).namespaces ≡ s.namespaces
unfolding added update_post_creation_date
names-added q (date d) s = ground arith
names-added q (meta n v) s = ground arith

abbrev pub Loggers : Type 0
Loggers = List (Logger State Error)

pub run-removals :
    (q : ℕ) (ms : List MetaData) (acts : List MetaAction) (s : State) (logs : Loggers)
    → all_known ms s.namespaces ≡ true
    → ((removed_all q ms s).namespaces ≡ s.namespaces)
      × ((logs' : Loggers) × (run_actions (removals q ms ++ acts) s logs
            ≡ run_actions acts (removed_all q ms s) logs'))
unfolding removals removed_all all_known run_actions
run-removals q [] acts s logs k = (refl, (logs, refl))
run-removals q (m ∷ ms) acts s logs k =
    let (l, e) = remove_data-eq q m s (ground (arith, k)) in
    let same' = names-removed q m s in
    let (n, (logs', r)) =
      run-removals q ms acts (removed q m s) (if valid l then logs ++ l ∷ [] else logs)
        (ap (all_known ms) same' ∙ ground (arith, k)) in
    (n ∙ same', (logs', rw e r))

pub run-additions :
    (p : ℕ) (ms : List MetaData) (s : State) (logs : Loggers)
    → all_known ms s.namespaces ≡ true
    → (logs' : Loggers) × (run_actions (additions p ms) s logs ≡ ok (added_all p ms s, logs'))
unfolding additions added_all all_known run_actions
run-additions p [] s logs k = (logs, refl)
run-additions p (m ∷ ms) s logs k =
    let (l, e) = add_data-eq p m s (ground (arith, k)) in
    let (logs', r) =
      run-additions p ms (added p m s) (if valid l then logs ++ l ∷ [] else logs)
        (ap (all_known ms) (names-added p m s) ∙ ground (arith, k)) in
    (logs', rw e r)

-- the metadata of a post that is read is what it has
metas_of-known :
    (p : ℕ) (names : List ℕ) (rows : List MetaRow) → all_known (metas_of p names rows) names ≡ true
unfolding metas_of all_known is_known
metas_of-known p names [] = refl
metas_of-known p names (r ∷ rows) = ground (arith, metas_of-known p names rows)

dates_of-known :
    (p : ℕ) (names : List ℕ) (dates : Table) → all_known (dates_of p dates) names ≡ true
unfolding dates_of all_known is_known
dates_of-known p names [] = refl
dates_of-known p names ((x, d) ∷ dates) = ground (arith, dates_of-known p names dates)

pub q_metadata-known : (p : ℕ) (s : State) → all_known (q_metadata p s) s.namespaces ≡ true
unfolding q_metadata
q_metadata-known p s = ground (
  arith,
  all_known-append (metas_of p s.namespaces s.post_metadata) (dates_of p s.post_creation_dates)
      s.namespaces,
  metas_of-known p s.namespaces s.post_metadata,
  dates_of-known p s.namespaces s.post_creation_dates,
)

-- the foreign key of post_metadata
abbrev pub has_names : List MetaRow → List ℕ → Bool
has_names [] names = true
has_names (r ∷ rows) names = mem r.namespace names && has_names rows names

mem-metas_of-date :
    (p d : ℕ) (names : List ℕ) (rows : List MetaRow)
    → mem_data (date d) (metas_of p names rows) ≡ false
unfolding metas_of mem_data same
mem-metas_of-date p d names [] = refl
mem-metas_of-date p d names (r ∷ rows) = ground (arith, mem-metas_of-date p d names rows)

mem-dates_of-meta :
    (p n : ℕ) (v : Text) (dates : Table) → mem_data (meta n v) (dates_of p dates) ≡ false
unfolding dates_of mem_data same
mem-dates_of-meta p n v [] = refl
mem-dates_of-meta p n v ((x, d) ∷ dates) = ground (arith, mem-dates_of-meta p n v dates)

mem-metas_of :
    (p n : ℕ) (v : Text) (names : List ℕ) (rows : List MetaRow)
    → has_names rows names ≡ true
    → mem_data (meta n v) (metas_of p names rows) ≡ has_meta p n v rows
unfolding metas_of mem_data same has_meta is_row
mem-metas_of p n v names [] h = refl
mem-metas_of p n v names (r ∷ rows) h = ground (
  arith,
  h,
  mem-metas_of p n v names rows,
  ==_iff r.namespace n,
  ==_iff n r.namespace,
  text_eq_iff r.metadata v,
  text_eq_iff v r.metadata,
)

mem-dates_of : (p d : ℕ) (dates : Table) → mem_data (date d) (dates_of p dates) ≡ has_row p d dates
unfolding dates_of mem_data same
mem-dates_of p d [] = refl
mem-dates_of p d ((x, e) ∷ dates) = ground (arith, mem-dates_of p d dates, ==_iff p x, ==_iff x p)

pub mem-q_metadata :
    (p : ℕ) (m : MetaData) (s : State)
    → has_names s.post_metadata s.namespaces ≡ true
    → mem_data m (q_metadata p s) ≡ has p m s
unfolding q_metadata has
mem-q_metadata p (date d) s h = ground (
  arith,
  mem_data-append (date d) (metas_of p s.namespaces s.post_metadata)
      (dates_of p s.post_creation_dates),
  mem-metas_of-date p d s.namespaces s.post_metadata,
  mem-dates_of p d s.post_creation_dates,
)
mem-q_metadata p (meta n v) s h = ground (
  arith,
  mem_data-append (meta n v) (metas_of p s.namespaces s.post_metadata)
      (dates_of p s.post_creation_dates),
  mem-metas_of p n v s.namespaces s.post_metadata h,
  mem-dates_of-meta p n v s.post_creation_dates,
)
