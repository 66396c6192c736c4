-- ===== src/Cache/Calls.antt =====
-- Runs of calls of the cache of DataManager/cache/generic_cache.go, and their specification: a map that
-- may forget.
use pbooru.Prelude.{
  Bool, List, Option, [], false, if◌then◌else◌, none, some, true, ℕ, ◌==◌, ◌∷◌, ◌≡◌, ◌⊎◌,
}
use pbooru.Cache.{Tracer, Generic, get, set, del, purge}
use pbooru.Cache.Entries.{entry}

pub data Call (V : Type 0) : Type 0 where
  call_get : (now key : ℕ) → Call V
  call_set : (now key : ℕ) → V → Call V
  call_del : (key : ℕ) → Call V
  call_purge : (now : ℕ) → Call V

module _ {V : Type 0} where
  -- a call, with the answer of a Get
  unfoldable pub perform : Call V → Generic V → Option (V × Bool) × Generic V
  unfolding get set del purge
  perform (call_get now key) c = let (answer, c') = get now key c in (some answer, c')
  perform (call_set now key v) c = (none, set now key v c)
  perform (call_del key) c = (none, del key c)
  perform (call_purge now) c = (none, purge now c)

  unfoldable pub perform_all : List (Call V) → Generic V → List (Option (V × Bool)) × Generic V
  unfolding perform
  perform_all [] c = ([], c)
  perform_all (call ∷ calls) c =
      let (answer, c1) = perform call c in
      let (answers, c2) = perform_all calls c1 in (answer ∷ answers, c2)

  -- The specification: the state is a map, which a purge may make forget keys.
  unfoldable pub looked_up : V → Option V → V × Bool
  looked_up missing none = (missing, false)
  looked_up missing (some v) = (v, true)

  abbrev pub IsStep : V → Call V → (ℕ → Option V) → Option (V × Bool) → (ℕ → Option V) → Type 0
  IsStep missing (call_get now key) m answer m' =
      (answer ≡ some (looked_up missing (m key))) × ((j : ℕ) → m' j ≡ m j)
  IsStep missing (call_set now key v) m answer m' =
      (j : ℕ) → m' j ≡ (if key == j then some v else m j)
  IsStep missing (call_del key) m answer m' = (j : ℕ) → m' j ≡ (if key == j then none else m j)
  IsStep missing (call_purge now) m answer m' = (j : ℕ) → (m' j ≡ m j) ⊎ (m' j ≡ none)

  pub data IsRun (missing : V)
      : List (Call V) → (ℕ → Option V) → List (Option (V × Bool)) → (ℕ → Option V) → Type 0 where
    start : {m : ℕ → Option V} → IsRun missing [] m [] m
    next :
        {call : Call V} {calls : List (Call V)} {m m1 m2 : ℕ → Option V}
        {answer : Option (V × Bool)} {answers : List (Option (V × Bool))}
        → IsStep missing call m answer m1
        → IsRun missing calls m1 answers m2
        → IsRun missing (call ∷ calls) m (answer ∷ answers) m2

  unfoldable pub item_of : Option (Tracer V) → Option V
  item_of none = none
  item_of (some t) = some t.item

  -- the cache as a map
  abbrev pub view : Generic V → ℕ → Option V
  view c key = item_of (entry c key)
