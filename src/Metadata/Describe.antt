-- ===== src/Metadata/Describe.antt =====
-- `moveDescription` of DataManager/duplicates.go. `itoa` prints the id of a post; the map of the
-- descriptions is a list in the order of the inferiors.
pub mod Kept
pub mod Runs
pub mod Moved
use pbooru.Text.{Text, codes}
use pbooru.Prelude.{
  List, Option, Outcome, [], if◌then◌else◌, is_empty, none, ok, or_fail, some, ℕ, ◌++◌, ◌==◌, ◌>>=◌,
  ◌∷◌,
}
use pbooru.Metadata.{State, PostRow, MetaAction, Error, no_rows, change_description}

unfoldable pub description_of : ℕ → List PostRow → Option Text
description_of p [] = none
description_of p (r ∷ posts) = if r.id == p then some r.description else description_of p posts

-- the descriptions of the inferiors that have one
unfoldable pub descrs : List ℕ → List PostRow → Outcome Error (List (ℕ × Text))
unfolding description_of
descrs [] posts = ok []
descrs (q ∷ inferior) posts = do
  t ← or_fail (description_of q posts) no_rows
  rest ← descrs inferior posts
  ok (if is_empty t then rest else (q, t) ∷ rest)

abbrev pub header : Text
header = codes "\n\n---- Addendum of duplicate "

abbrev pub header_end : Text
header_end = codes " ----\n"

unfoldable pub addenda : (ℕ → Text) → List (ℕ × Text) → Text
addenda itoa [] = []
addenda itoa ((q, t) ∷ ds) = header ++ (itoa q ++ (header_end ++ (t ++ addenda itoa ds)))

unfoldable pub clear_all : List (ℕ × Text) → List MetaAction
clear_all [] = []
clear_all ((q, t) ∷ ds) = change_description q [] ∷ clear_all ds

unfoldable pub describe_by : (ℕ → Text) → ℕ → Text → List (ℕ × Text) → List MetaAction
unfolding addenda clear_all
describe_by itoa p dest [] = []
describe_by itoa p dest ((q, t) ∷ []) =
    if is_empty dest
    then change_description p t ∷ (change_description q [] ∷ [])
    else change_description q [] ∷ (change_description p (dest ++ addenda itoa ((q, t) ∷ [])) ∷ [])
describe_by itoa p dest (d ∷ (e ∷ ds)) =
    clear_all (d ∷ (e ∷ ds)) ++ change_description p (dest ++ addenda itoa (d ∷ (e ∷ ds))) ∷ []

unfoldable pub move_description : (ℕ → Text) → ℕ → List ℕ → State → Outcome Error (List MetaAction)
unfolding description_of descrs describe_by
move_description itoa p inferior s = do
  dest ← or_fail (description_of p s.posts) no_rows
  ds ← descrs inferior s.posts
  ok (describe_by itoa p dest ds)
