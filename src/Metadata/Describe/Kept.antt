-- ===== src/Metadata/Describe/Kept.antt =====
-- No description is lost when duplicates are assigned (`moveDescription` of DataManager/duplicates.go).
use mathlib.Core.List.{append_assoc}
use pbooru.Log.{run_actions, Logger}
use pbooru.Metadata.Describe.{description_of, clear_all, addenda, header, header_end}
use pbooru.Text.{Text}
use pbooru.Prelude.{
  ==_iff, Bool, List, Option, [], ap, arith, false, if◌then◌else◌, inl, inr, none, refl, some, true,
  ℕ, ◌++◌, ◌==◌, ◌||◌, ◌∙◌, ◌∷◌, ◌≡◌, ◌⊎◌,
}
use pbooru.Metadata.{State, PostRow, MetaAction, Error, set_description, change_description}

-- the text stands in the other one
abbrev pub IsInfix : Text → Text → Type 0
IsInfix t d = (pre : Text) × (post : Text) × (d ≡ pre ++ (t ++ post))

abbrev pub HasPair : ℕ → Text → List (ℕ × Text) → Type 0
HasPair q t [] = ⊥
HasPair q t (d ∷ ds) = ((q, t) ≡ d) ⊎ HasPair q t ds

abbrev pub emptied : Option Text → Option Text
emptied none = none
emptied (some t) = some []

abbrev pub replaced : Text → Option Text → Option Text
replaced t none = none
replaced t (some u) = some t

pub description_of-set :
    (x p : ℕ) (t : Text) (posts : List PostRow)
    → description_of x (set_description p t posts)
      ≡ (if x == p then replaced t (description_of x posts) else description_of x posts)
unfolding description_of set_description
description_of-set x p t [] = ground arith
description_of-set x p t (r ∷ posts) =
    ground (arith, description_of-set x p t posts, ==_iff r.id x, ==_iff r.id p, ==_iff x p)

-- the posts after the descriptions of a list are emptied
pub cleared : List (ℕ × Text) → List PostRow → List PostRow
cleared [] posts = posts
cleared ((q, t) ∷ ds) posts = cleared ds (set_description q [] posts)

abbrev pub mem_ids : ℕ → List (ℕ × Text) → Bool
mem_ids x [] = false
mem_ids x ((q, t) ∷ ds) = x == q || mem_ids x ds

pub description_of-cleared :
    (x : ℕ) (ds : List (ℕ × Text)) (posts : List PostRow)
    → description_of x (cleared ds posts)
      ≡ (if mem_ids x ds then emptied (description_of x posts) else description_of x posts)
unfolding cleared
description_of-cleared x [] posts = refl
description_of-cleared x ((q, t) ∷ ds) posts =
    description_of-cleared x ds (set_description q [] posts)
    ∙ ap (λ (o : Option Text). if mem_ids x ds then emptied o else o)
        (description_of-set x q [] posts)
    ∙ both_ways (x == q) (mem_ids x ds) (description_of x posts)
  where
    both_ways :
        (a b : Bool) (o : Option Text)
        → (if b then emptied (if a then replaced [] o else o) else (if a then replaced [] o else o))
          ≡ (if a || b then emptied o else o)
    both_ways true true none = refl
    both_ways true true (some t) = refl
    both_ways true false none = refl
    both_ways true false (some t) = refl
    both_ways false true o = refl
    both_ways false false o = refl

pub run-cleared :
    (ds : List (ℕ × Text)) (acts : List MetaAction) (s : State) (logs : List (Logger State Error))
    → (logs' : List (Logger State Error)) × (run_actions (clear_all ds ++ acts) s logs
        ≡ run_actions acts (record s { posts = cleared ds s.posts }) logs')
unfolding clear_all cleared run_actions change_description
run-cleared [] acts s logs = (logs, refl)
run-cleared ((q, t) ∷ ds) acts s logs =
    run-cleared ds acts (record s { posts = set_description q [] s.posts }) _

pub infix-addenda :
    (itoa : ℕ → Text) (dest : Text) (ds : List (ℕ × Text)) (q : ℕ) (t : Text)
    → HasPair q t ds
    → IsInfix t (dest ++ addenda itoa ds)
unfolding addenda
infix-addenda itoa dest [] q t m = elim m [ ]
infix-addenda itoa dest ((k, u) ∷ ds) q t (inl e) =
    let same : t ≡ u = ap (λ (z : ℕ × Text). z.1) e in
    (dest ++ (header ++ (itoa k ++ header_end)), addenda itoa ds, simp (same, append_assoc))
infix-addenda itoa dest ((k, u) ∷ ds) q t (inr more) =
    let (pre, post, e) = infix-addenda itoa [] ds q t more in
    (dest ++ (header ++ (itoa k ++ (header_end ++ (u ++ pre)))), post, simp (e, append_assoc))

-- what a move leaves of the descriptions
abbrev pub IsKept : ℕ → Text → List (ℕ × Text) → List PostRow → List PostRow → Type 0
IsKept p dest ds before after =
    ((x : ℕ)
      → mem_ids x ds ≡ false
      → (x == p) ≡ false
      → description_of x after ≡ description_of x before)
    × ((q : ℕ) → mem_ids q ds ≡ true → description_of q after ≡ emptied (description_of q before))
    × ((d : Text) × (description_of p after ≡ some d)
        × IsInfix dest d
        × ((q : ℕ) (t : Text) → HasPair q t ds → IsInfix t d))
