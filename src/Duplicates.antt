-- ===== src/Duplicates.antt =====
-- The table `duplicates` (post_id, dup_id) of DataManager/duplicates.go, whose primary key is
-- dup_id: `getDupeFromPost`, and the steps `upgradeDupe`, `conflicts` and `updateAndInsert` of
-- `AssignDuplicates`. A post is its id. An error carries no tables (rollback).
pub mod Conflicts
pub mod Flat
pub mod Moves
pub mod TagMove
pub mod Reports
mod Examples
use pbooru.Prelude.{
  ℕ, ◌≡◌, refl, Bool, true, false, not, ◌&&◌, ◌||◌, List, [], ◌∷◌, ◌++◌, mem, Option, none, some,
  keep, ◌==◌, if◌then◌else◌, is_empty, Outcome, ok, err, ◌>>=◌,
}
use pbooru.Database.{Table, fst, snd, snd_where}

pub record Dupe : Type 0 where
  pub post : ℕ
  pub inferior : List ℕ

pub data Error : Type 0 where
  -- DupeConflict, with its `check`
  conflict : List ℕ → Error
  -- "Dupe assignment has been reduced to no duplicates"
  no_duplicates : Error
  -- the primary key refuses a row
  unique_violation : Error

-- (SELECT post_id FROM duplicates WHERE dup_id = $1)
unfoldable pub superior_of : ℕ → Table → Option ℕ
superior_of p [] = none
superior_of p ((sup, inf) ∷ rows) = if inf == p then some sup else superior_of p rows

-- WHERE post_id = $1 OR post_id = (…), which no row meets for a NULL
unfoldable pub is_of : ℕ → Option ℕ → ℕ × ℕ → Bool
is_of p none row = fst row == p
is_of p (some s) row = fst row == p || fst row == s

-- the scan function over the rows
unfoldable pub scan : Dupe → Table → Dupe
scan d [] = d
scan d ((sup, inf) ∷ rows) =
    scan
      (record { post = (if d.post == sup then d.post else sup); inferior = d.inferior ++ inf ∷ [] })
      rows

unfoldable pub get_dupe_from_post : ℕ → Table → Dupe
unfolding scan is_of superior_of
get_dupe_from_post p duplicates =
    scan (record { post = p; inferior = [] }) (keep (is_of p (superior_of p duplicates)) duplicates)

unfoldable pub upgrade_dupe : Table → Dupe → Dupe
unfolding get_dupe_from_post
upgrade_dupe duplicates d = record d { post = (get_dupe_from_post d.post duplicates).post }

unfoldable pub remove_inferior : ℕ → List ℕ → List ℕ
remove_inferior id inferior = keep (λ i. not (i == id)) inferior

-- the scan function of `conflicts`: the inferiors that are left, and `conflict.check`
unfoldable pub check_rows : ℕ → List ℕ → Table → List ℕ × List ℕ
unfolding remove_inferior
check_rows p inferior [] = (inferior, [])
check_rows p inferior ((sup, inf) ∷ rows) =
    let removed = check_rows p (remove_inferior inf inferior) rows in
    let (inferior', check) = check_rows p inferior rows in
    if sup == p then removed else (inferior', sup ∷ check)

unfoldable pub conflicts : Table → Dupe → Outcome Error Dupe
unfolding check_rows
conflicts duplicates d =
    let (inferior, check) =
      check_rows d.post d.inferior (keep (λ row. mem (snd row) d.inferior) duplicates) in
    let left = keep (λ i. not (i == d.post)) inferior in
    if not (is_empty check)
    then err (conflict (d.post ∷ check))
    else if is_empty left
    then err no_duplicates
    else ok (record d { inferior = left })

-- UPDATE duplicates SET post_id = p WHERE post_id IN(inferior)
unfoldable pub repoint : List ℕ → ℕ → Table → Table
repoint inferior p [] = []
repoint inferior p ((sup, inf) ∷ rows) =
    ((if mem sup inferior then p else sup), inf) ∷ repoint inferior p rows

unfoldable pub has_dup : ℕ → Table → Bool
has_dup i [] = false
has_dup i ((sup, inf) ∷ rows) = i == inf || has_dup i rows

-- INSERT INTO duplicates(post_id, dup_id) SELECT $1, UNNEST(…)
unfoldable pub insert_dupes : ℕ → List ℕ → Table → Outcome Error Table
unfolding has_dup
insert_dupes p [] rows = ok rows
insert_dupes p (i ∷ inferior) rows =
    let rest = insert_dupes p inferior ((p, i) ∷ rows) in
    if has_dup i rows then err unique_violation else rest

pub record DuplicatesLog : Type 0 where
  pub superior : ℕ
  pub inferior : List ℕ

-- the log names the duplicates that were moved (RETURNING dup_id), and the new ones
unfoldable pub update_and_insert : Table → Dupe → Outcome Error (Table × DuplicatesLog)
unfolding repoint insert_dupes
update_and_insert duplicates d = do
  rows ← insert_dupes d.post d.inferior (repoint d.inferior d.post duplicates)
  ok (rows, record { superior = d.post; inferior = snd_where d.inferior duplicates ++ d.inferior })

-- the first three procedures of AssignDuplicates: the dupe that the others go on with, and the table
unfoldable pub assign : Table → Dupe → Outcome Error (Dupe × Table × DuplicatesLog)
unfolding upgrade_dupe conflicts update_and_insert
assign duplicates d0 = do
  d ← conflicts duplicates (upgrade_dupe duplicates d0)
  (rows, log) ← update_and_insert duplicates d
  ok (d, rows, log)
