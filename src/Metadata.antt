-- ===== src/Metadata.antt =====
-- DataManager/posts_modify.go: the actions on the metadata, the creation dates and the description of a
-- post, with what DataManager/posts_log.go logs of them, `qMetaData` of DataManager/posts.go, and
-- `moveMetadata` of DataManager/duplicates.go. The id of a namespace stands for its name, and the
-- number of a day for a date.
pub mod Facts
pub mod Moves
pub mod Merged
pub mod Dated
pub mod Dates
pub mod Describe
mod Examples
use pbooru.Tags.Store.{delete}
use pbooru.Log.{LoggingAction, Logger}
use pbooru.Database.{Table, insert_row, has_row, fst, snd}
use pbooru.Tags.Store.{Action, create}
use pbooru.Prelude.{
  Bool, List, Option, Outcome, [], err, false, if◌then◌else◌, keep, ltb, mem, none, not, ok, some,
  ℕ, ◌&&◌, ◌++◌, ◌==◌, ◌||◌, ◌∷◌,
}
use pbooru.Text.{Text, text_eq}

-- a MetaData with the namespace `date`, or another one
pub data MetaData : Type 0 where
  date : ℕ → MetaData
  meta : ℕ → Text → MetaData

pub record MetaRow : Type 0 where
  pub post : ℕ
  pub namespace : ℕ
  pub metadata : Text

pub record PostRow : Type 0 where
  pub id : ℕ
  pub creation_date : Option ℕ
  pub description : Text

-- a row of log_post_creation_dates, log_post_metadata or log_post_description
pub data LogRow : Type 0 where
  logged_data : Action → ℕ → MetaData → LogRow
  logged_description : ℕ → Text → LogRow

pub record State : Type 0 where
  pub posts : List PostRow
  -- ids of `namespaces`
  pub namespaces : List ℕ
  pub post_metadata : List MetaRow
  -- (post_id, created)
  pub post_creation_dates : Table
  -- with the id of the log
  pub log_rows : List (ℕ × LogRow)
  -- (log_id, post_id)
  pub log_post : Table

pub data Error : Type 0 where
  no_rows : Error

abbrev pub MetaAction : Type 0
MetaAction = LoggingAction State Error

unfoldable pub is_row : ℕ → ℕ → Text → MetaRow → Bool
unfolding text_eq
is_row p n v r = r.post == p && r.namespace == n && text_eq r.metadata v

unfoldable pub has_meta : ℕ → ℕ → Text → List MetaRow → Bool
unfolding is_row
has_meta p n v [] = false
has_meta p n v (r ∷ rows) = is_row p n v r || has_meta p n v rows

-- SELECT MIN(created) … WHERE post_id = p
unfoldable pub min_of : ℕ → Option ℕ → Option ℕ
min_of d none = some d
min_of d (some e) = some (if ltb d e then d else e)

unfoldable pub min_created : ℕ → Table → Option ℕ
unfolding min_of
min_created p [] = none
min_created p ((x, d) ∷ dates) =
    let rest = min_created p dates in if x == p then min_of d rest else rest

unfoldable pub set_date : ℕ → Option ℕ → List PostRow → List PostRow
set_date p d [] = []
set_date p d (r ∷ posts) =
    (if r.id == p then record r { creation_date = d } else r) ∷ set_date p d posts

unfoldable pub update_post_creation_date : ℕ → State → State
unfolding min_created set_date
update_post_creation_date p s = record s {
  posts = set_date p (min_created p s.post_creation_dates) s.posts;
}

-- a log function of posts_log.go: the row, and `initPostLog`
unfoldable pub write_log : ℕ → LogRow → ℕ → State → Outcome Error State
write_log p row log s =
    ok (record s {
      log_rows = s.log_rows ++ (log, row) ∷ [];
      log_post = insert_row log p s.log_post;
    })

-- logPostMetaData asks for the id of the namespace first
unfoldable pub log_data : Action → ℕ → MetaData → ℕ → State → Outcome Error State
unfolding write_log
log_data action p (date d) log s = write_log p (logged_data action p (date d)) log s
log_data action p (meta n v) log s =
    if mem n s.namespaces then write_log p (logged_data action p (meta n v)) log s else err no_rows

-- names of logtable
abbrev pub l_post_description : ℕ
l_post_description = 0

unfoldable pub table_of : MetaData → ℕ
table_of (date d) = 1
table_of (meta n v) = 2

abbrev pub no_log : Logger State Error
no_log = record { tables = []; fn = none }

abbrev pub data_log : Action → ℕ → MetaData → Logger State Error
data_log action p m = record { tables = table_of m ∷ []; fn = some (log_data action p m) }

-- postAddCreationDate and postAddMetaData
unfoldable pub add_data : ℕ → MetaData → MetaAction
unfolding update_post_creation_date has_meta log_data table_of
add_data p (date d) s =
    if has_row p d s.post_creation_dates
    then ok (s, no_log)
    else ok (
      update_post_creation_date p
          (record s { post_creation_dates = (p, d) ∷ s.post_creation_dates }),
      data_log create p (date d),
    )
add_data p (meta n v) s =
    if not (mem n s.namespaces)
    then err no_rows
    else (if has_meta p n v s.post_metadata
        then ok (s, no_log)
        else ok (
          record s {
            post_metadata = record { post = p; namespace = n; metadata = v } ∷ s.post_metadata;
          },
          data_log create p (meta n v),
        ))

-- postRemoveCreationDate and postRemoveMetaData
unfoldable pub remove_data : ℕ → MetaData → MetaAction
unfolding update_post_creation_date is_row log_data table_of
remove_data p (date d) s = ok (
  update_post_creation_date p (record s {
    post_creation_dates = keep (λ row. not (fst row == p && snd row == d)) s.post_creation_dates;
  }),
  data_log delete p (date d),
)
remove_data p (meta n v) s =
    if not (mem n s.namespaces)
    then err no_rows
    else ok (
      record s { post_metadata = keep (λ r. not (is_row p n v r)) s.post_metadata },
      data_log delete p (meta n v),
    )

unfoldable pub set_description : ℕ → Text → List PostRow → List PostRow
set_description p t [] = []
set_description p t (r ∷ posts) =
    (if r.id == p then record r { description = t } else r) ∷ set_description p t posts

-- PostChangeDescription
unfoldable pub change_description : ℕ → Text → MetaAction
unfolding set_description write_log
change_description p t s = ok (
  record s { posts = set_description p t s.posts },
  record { tables = l_post_description ∷ []; fn = some (write_log p (logged_description p t)) },
)

-- qMetaData: post_metadata joined with the namespaces, and the dates
unfoldable pub metas_of : ℕ → List ℕ → List MetaRow → List MetaData
metas_of p names [] = []
metas_of p names (r ∷ rows) =
    let rest = metas_of p names rows in
    if r.post == p && mem r.namespace names then meta r.namespace r.metadata ∷ rest else rest

unfoldable pub dates_of : ℕ → Table → List MetaData
dates_of p [] = []
dates_of p ((x, d) ∷ dates) = let rest = dates_of p dates in if x == p then date d ∷ rest else rest

unfoldable pub q_metadata : ℕ → State → List MetaData
unfolding metas_of dates_of
q_metadata p s = metas_of p s.namespaces s.post_metadata ++ dates_of p s.post_creation_dates

unfoldable pub removals : ℕ → List MetaData → List MetaAction
removals p [] = []
removals p (m ∷ ms) = remove_data p m ∷ removals p ms

unfoldable pub additions : ℕ → List MetaData → List MetaAction
additions p [] = []
additions p (m ∷ ms) = add_data p m ∷ additions p ms

-- the loop over the inferiors, and metaMap after it (Go's order on a map is left open)
unfoldable pub remove_all : List ℕ → State → List MetaAction
unfolding q_metadata removals
remove_all [] s = []
remove_all (q ∷ inferior) s = removals q (q_metadata q s) ++ remove_all inferior s

unfoldable pub merged : List ℕ → State → List MetaData
unfolding q_metadata
merged [] s = []
merged (q ∷ inferior) s = q_metadata q s ++ merged inferior s

-- the actions that moveMetadata adds
unfoldable pub move_metadata : ℕ → List ℕ → State → List MetaAction
unfolding remove_all merged additions
move_metadata p inferior s = remove_all inferior s ++ additions p (merged inferior s)
