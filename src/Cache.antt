-- ===== src/Cache.antt =====
-- `Generic` of DataManager/cache/generic_cache.go: a map from keys to the elements of a list in the
-- order of their last use, the latest first; `entries` is the field `data`. The keys of the program
-- are ids. The clock is an argument, later than the spans that are taken from it. The mutex and the
-- goroutine of `GC` are not modelled: the calls come one after another. The loop of `purge` from the
-- back runs on the number of elements as fuel: each round removes one. The list is
-- github.com/bahlo/generic-list-go, container/list with a type parameter.
pub mod Synced
pub mod Entries
pub mod Purges
pub mod Calls
pub mod Refines
mod Examples
use pbooru.Prelude.{
  ℕ, Bool, List, Option, [], false, if◌then◌else◌, length, ltb, none, some, suc, true, zero, ◌-◌,
  ◌==◌, ◌∷◌,
}
use pbooru.LinkedList.{LinkedList, value, push_front, remove, set_value, move_to_front, back}
use pbooru.Maps.Ints.{find_at, put_at, delete_at}

pub record Tracer (V : Type 0) : Type 0 where
  pub key : ℕ
  pub item : V
  pub access : ℕ
  pub created : ℕ

pub record Generic (V : Type 0) : Type 0 where
  pub zero : V
  pub expire_after : ℕ
  pub max_life_time : ℕ
  pub entries : List (ℕ × ℕ)
  pub list : LinkedList (Tracer V)

module _ {V : Type 0} where
  -- NewGeneric
  unfoldable pub new_generic : V → ℕ → ℕ → Generic V
  new_generic missing expire_after max_life_time = record {
    zero = missing;
    expire_after = expire_after;
    max_life_time = max_life_time;
    entries = [];
    list = record { elements = []; next_id = 0 };
  }

  -- element.Value = …, then MoveToFront(element)
  unfoldable pub touch : ℕ → Tracer V → Generic V → Generic V
  touch id t c = record c { list = move_to_front (set_value c.list id t) id }

  unfoldable pub get_element : ℕ → ℕ → Option (Tracer V) → Generic V → (V × Bool) × Generic V
  unfolding touch
  get_element now id none c = ((c.zero, false), c)
  get_element now id (some t) c = ((t.item, true), touch id (record t { access = now }) c)

  unfoldable pub get_found : ℕ → Option ℕ → Generic V → (V × Bool) × Generic V
  unfolding get_element
  get_found now none c = ((c.zero, false), c)
  get_found now (some id) c = get_element now id (value c.list id) c

  unfoldable pub get : ℕ → ℕ → Generic V → (V × Bool) × Generic V
  unfolding get_found
  get now key c = get_found now (find_at c.entries key) c

  unfoldable pub set_element : ℕ → ℕ → V → Option (Tracer V) → Generic V → Generic V
  unfolding touch
  set_element now id v none c = c
  set_element now id v (some t) c = touch id (record t { item = v; access = now }) c

  unfoldable pub add_new : ℕ → ℕ → V → Generic V → Generic V
  add_new now key v c =
      let (id, list) =
        push_front c.list (record { key = key; item = v; access = now; created = now }) in
      record c { entries = put_at c.entries key id; list = list }

  unfoldable pub set_found : ℕ → ℕ → V → Option ℕ → Generic V → Generic V
  unfolding set_element add_new
  set_found now key v none c = add_new now key v c
  set_found now key v (some id) c = set_element now id v (value c.list id) c

  unfoldable pub set : ℕ → ℕ → V → Generic V → Generic V
  unfolding set_found
  set now key v c = set_found now key v (find_at c.entries key) c

  -- delete(c.entries, key) and c.Remove(element)
  unfoldable pub drop_element : ℕ → ℕ → Generic V → Generic V
  drop_element key id c = record c { entries = delete_at c.entries key; list = remove c.list id }

  unfoldable pub del_found : ℕ → Option ℕ → Generic V → Generic V
  unfolding drop_element
  del_found key none c = c
  del_found key (some id) c = drop_element key id c

  unfoldable pub del : ℕ → Generic V → Generic V
  unfolding del_found
  del key c = del_found key (find_at c.entries key) c

  -- the loop from the back, up to an element that was used after `expired`
  unfoldable pub purge_back : ℕ → ℕ → Generic V → Generic V
  unfolding drop_element
  purge_back zero expired c = c
  purge_back (suc fuel) expired c = elim (back c.list) [
    | none ↦ c
    | some (id, t) ↦
        let rest = purge_back fuel expired (drop_element t.key id c) in
        if ltb expired t.access then c else rest
  ]

  -- the loop from the front: a removed element has no next one
  unfoldable pub sweep : ℕ → List (ℕ × Tracer V) → Generic V → Generic V
  unfolding drop_element
  sweep max_life [] c = c
  sweep max_life ((id, t) ∷ es) c =
      let rest = sweep max_life es c in
      if ltb max_life t.created then rest else drop_element t.key id c

  unfoldable pub purge : ℕ → Generic V → Generic V
  unfolding purge_back sweep
  purge now c =
      let left = purge_back (length c.list.elements) (now - c.expire_after) c in
      if c.max_life_time == 0 then left else sweep (now - c.max_life_time) left.list.elements left
