-- ===== src/Cache/Examples.antt =====
-- Runs of the theorems on a small cache: an idle time of 5 and a life of 10.
use pbooru.Prelude.{List, [], refl, ℕ, ◌∷◌}
use pbooru.LinkedList.{value, value_in}
use pbooru.Maps.Ints.{find_at}
use pbooru.Cache.{Generic, new_generic}
use pbooru.Cache.Entries.{IsCache}
use pbooru.Cache.Calls.{Call, call_get, call_set, call_del, call_purge, perform_all, IsRun, view}
use pbooru.Cache.Refines.{perform_all-IsRun}

abbrev empty : Generic ℕ
empty = new_generic 0 5 10

empty-IsCache : IsCache empty
unfolding new_generic find_at value value_in
empty-IsCache = record {
  synced = record { indexed = λ key id e. cc; listed = λ id t e. cc; allocated = λ id le. refl };
  distinct = tt;
}

abbrev calls : List (Call ℕ)
calls =
    call_set 20 1 7
    ∷ call_set 21 2 8
    ∷ call_get 28 1
    ∷ call_del 2
    ∷ call_purge 30
    ∷ call_get 31 2
    ∷ []

perform_all-IsRun_example :
    IsCache (perform_all calls empty).1
    × IsRun empty.zero calls
        (view empty)
        (perform_all calls empty).0
        (view (perform_all calls empty).1)
perform_all-IsRun_example = perform_all-IsRun calls empty empty-IsCache
