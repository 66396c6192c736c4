-- ===== src/Session.antt =====
-- The sessions of logged-in users: the keeper of DataManager/session/keeper.go over its store, the
-- table `sessions` behind DataManager/user/session_store.go. Times are seconds. A statement of the
-- store does not fail, but `Put` where the key is taken; `generateKey` is not modelled: the new key
-- is an argument. Each call holds the keeper's mutex, so calls are one after another.
pub mod Table
pub mod Sync
pub mod Calls
mod Examples
use pbooru.Prelude.{
  ℕ, ◌+◌, ◌-◌, Bool, true, false, not, ◌&&◌, List, [], ◌∷◌, ◌++◌, Option, none, some, ltb,
  if◌then◌else◌,
}
use pbooru.Text.{Text, text_eq}
use pbooru.Maps
use pbooru.Maps.{find, put}
use Table
use Table.{Row, thirty_days}
use pbooru.LinkedList.{LinkedList, value, push_front, remove, set_value}

-- Session of DataManager/session/session.go
pub record Session : Type 0 where
  pub key : Text
  pub user : ℕ
  pub access : ℕ

pub record Keeper : Type 0 where
  -- List: the sessions in memory, and `session`: their elements by key
  pub sessions : LinkedList Session
  pub index : List (Text × ℕ)
  -- Store
  pub rows : List (Text × Row)
  pub offload_after : ℕ

-- `session.touch(); e.Value = session`: the element keeps its place in the list
unfoldable pub get_cached : ℕ → Keeper → ℕ → Option ℕ × Keeper
get_cached now k id = elim (value k.sessions id) [
  | none ↦ (none, k)
  | some s ↦
      (some s.user, record k { sessions = set_value k.sessions id (record s { access = now }) })
]

-- `k.session[key] = k.PushFront(…)`
unfoldable pub remember : ℕ → Keeper → Text → ℕ → Keeper
remember now k key user =
    let (id, sessions) = push_front k.sessions (record { key = key; user = user; access = now }) in
    record k { sessions = sessions; index = put k.index key id }

-- `none` is the error NotFound
unfoldable pub get : ℕ → Keeper → Text → Option ℕ × Keeper
unfolding get_cached remember Table.retrieve find
get now k key = elim (find k.index key) [
  | some id ↦ get_cached now k id
  | none ↦ elim (Table.retrieve k.rows key) [
    | none ↦ (none, k)
    | some user ↦ (some user, remember now k key user)
  ]
]

-- `Keep`, with the generated key; the flag is `false` where the insert fails on the key
unfoldable pub keep : ℕ → Keeper → Text → ℕ → Bool × Keeper
unfolding remember find
keep now k key user =
    let k' = remember now k key user in
    elim (find k.rows key) [
      | some row ↦ (false, k')
      | none ↦ (
        true,
        record k' { rows = (key, record { user_id = user; expire = now + thirty_days }) ∷ k.rows },
      )
    ]

unfoldable pub forget : Keeper → Text → Keeper
forget k key = elim (find k.index key) [
  | none ↦ k
  | some id ↦ record k { index = Maps.delete k.index key; sessions = remove k.sessions id }
]

unfoldable pub destroy : Keeper → Text → Keeper
unfolding forget Table.erase
destroy k key = let k' = forget k key in record k' { rows = Table.erase k'.rows key }

-- the loop of `gc`, which goes from the back of the list to the first session that was touched
-- after `offload`: the keeper, the expunged keys, and whether the loop came through these elements
unfoldable pub expunge : ℕ → List (ℕ × Session) → Keeper → Keeper × List Text × Bool
expunge offload [] k = (k, [], true)
expunge offload ((id, s) ∷ es) k =
    let (k', expunged, through) = expunge offload es k in
    if through && not (ltb offload s.access)
    then (
      record k' { sessions = remove k'.sessions id; index = Maps.delete k'.index s.key },
      expunged ++ s.key ∷ [],
      true,
    )
    else (k', expunged, false)

unfoldable pub gc : ℕ → Keeper → Keeper
unfolding expunge Table.update_expiration Table.collect_expired
gc now k =
    let (k', expunged, _) = expunge (now - k.offload_after) k.sessions.elements k in
    record k' { rows = Table.collect_expired now (Table.update_expiration now k'.rows expunged) }
