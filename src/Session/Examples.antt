-- ===== src/Session/Examples.antt =====
-- Runs of the keeper's theorems on a keeper with two sessions in memory.
use pbooru.Prelude.{◌≡◌, refl, [], ◌∷◌, some, none}
use pbooru.Text.{codes, text_eq}
use pbooru.Maps.{find}
use pbooru.LinkedList.{value, value_in}
use pbooru.Session.{Keeper, get, keep, destroy}
use pbooru.Session.Sync.{IsSynced}
use pbooru.Session.Calls.{got, kept, destroyed, done, also, Calls-IsSynced}

abbrev empty : Keeper
empty = record {
  sessions = record { elements = []; next_id = 0 };
  index = [];
  rows = [];
  offload_after = 60;
}

abbrev two : Keeper
two = record {
  sessions = record {
    elements =
        (1, record { key = codes "new"; user = 8; access = 100 })
        ∷ (0, record { key = codes "old"; user = 7; access = 990 })
        ∷ [];
    next_id = 2;
  };
  index = (codes "new", 1) ∷ (codes "old", 0) ∷ [];
  rows = (codes "old", record { user_id = 7; expire = 5000 }) ∷ [];
  offload_after = 60;
}

empty-IsSynced : IsSynced empty
unfolding find value value_in
empty-IsSynced = record {
  indexed = λ key id e. absurd cc;
  listed = λ id s e. absurd cc;
  allocated = λ id le. refl;
}

absent : find empty.index (codes "a") ≡ none
unfolding find
absent = refl

Calls-IsSynced_example :
    IsSynced (destroy (get 9 (keep 5 empty (codes "a") 7).1 (codes "b")).1 (codes "a"))
Calls-IsSynced_example =
    Calls-IsSynced empty (destroy (get 9 (keep 5 empty (codes "a") 7).1 (codes "b")).1 (codes "a"))
      (also _ _ _ (kept 5 empty (codes "a") 7 absent)
        (also _ _ _ (got 9 _ (codes "b")) (also _ _ _ (destroyed _ (codes "a")) (done _))))
      empty-IsSynced

found_old : find two.index (codes "old") ≡ some 0
unfolding find text_eq
found_old = refl
