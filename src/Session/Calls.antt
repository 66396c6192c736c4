-- ===== src/Session/Calls.antt =====
-- Sequences of calls of the keeper of DataManager/session/keeper.go, and its sweep `gc`.
use pbooru.Prelude.{
  ℕ, ◌+◌, ◌-◌, ◌<◌, ◌≡◌, sym, ◌∙◌, ap, false, List, [], ◌∷◌, ◌++◌, none, some, arith, ==_iff,
  ==_refl, Option-cases, inl, inr,
}
use mathlib.Core.Path.{subst}
use pbooru.Text.{Text, text_eq_refl}
use pbooru.Maps.{find, find-delete, find-put}
use pbooru.LinkedList.{
  value, push_front, set_value, value-push_front, push_front_id, ids, ids-set_value,
}
use pbooru.Session.{Session, Keeper, get_cached, remember, get, keep, forget, destroy, expunge, gc}
use pbooru.Session.Table
use pbooru.Session.Table.{Row, thirty_days}
use pbooru.Session.Sync.{
  IsSynced, touch-IsSynced, remember-IsSynced, forget-IsSynced, forget_forgets,
}

get_hit :
    (now : ℕ) (k : Keeper) (key : Text) (id : ℕ)
    → find k.index key ≡ some id
    → get now k key ≡ get_cached now k id
unfolding get
get_hit now k key id h = rw (h, get)

get_miss :
    (now : ℕ) (k : Keeper) (key : Text)
    → find k.index key ≡ none
    → Table.retrieve k.rows key ≡ none
    → get now k key ≡ (none, k)
unfolding get
get_miss now k key h e = rw (h, e, get)

get_load :
    (now : ℕ) (k : Keeper) (key : Text) (user : ℕ)
    → find k.index key ≡ none
    → Table.retrieve k.rows key ≡ some user
    → get now k key ≡ (some user, remember now k key user)
unfolding get
get_load now k key user h e = rw (h, e, get)

get_cached-some :
    (now : ℕ) (k : Keeper) (id : ℕ) (s : Session)
    → value k.sessions id ≡ some s
    → get_cached now k id
      ≡ (some s.user, record k { sessions = set_value k.sessions id (record s { access = now }) })
unfolding get_cached
get_cached-some now k id s h = rw (h, get_cached)

get_cached-none :
    (now : ℕ) (k : Keeper) (id : ℕ) → value k.sessions id ≡ none → get_cached now k id ≡ (none, k)
unfolding get_cached
get_cached-none now k id h = rw (h, get_cached)

get-IsSynced : (now : ℕ) (k : Keeper) (key : Text) → IsSynced k → IsSynced (get now k key).1
get-IsSynced now k key v = elim (Option-cases (find k.index key)) [
  | inr (id, h) ↦
      let (s, m, named) = v.indexed key id h in
      subst (λ r. IsSynced r.1) (sym (get_hit now k key id h))
        (subst (λ r. IsSynced r.1) (sym (get_cached-some now k id s m))
          (touch-IsSynced k id now s v m))
  | inl h ↦ elim (Option-cases (Table.retrieve k.rows key)) [
    | inl e ↦ subst (λ r. IsSynced r.1) (sym (get_miss now k key h e)) v
    | inr (user, e) ↦
        subst (λ r. IsSynced r.1) (sym (get_load now k key user h e))
          (remember-IsSynced now k key user v h)
  ]
]

keep_sessions :
    (now : ℕ) (k : Keeper) (key : Text) (user : ℕ)
    → (rows : List (Text × Row)) × ((keep now k key user).1
        ≡ (record (remember now k key user) { rows = rows }))
unfolding keep
keep_sessions now k key user = elim (Option-cases (find k.rows key)) [
  | inl none_there ↦
      ((key, record { user_id = user; expire = now + thirty_days }) ∷ k.rows, rw (none_there, keep))
  | inr (row, there) ↦ ((remember now k key user).rows, rw (there, keep))
]

keep-IsSynced :
    (now : ℕ) (k : Keeper) (key : Text) (user : ℕ)
    → IsSynced k
    → find k.index key ≡ none
    → IsSynced (keep now k key user).1
keep-IsSynced now k key user v new =
    let (rows, e) = keep_sessions now k key user in
    let v' = remember-IsSynced now k key user v new in
    subst IsSynced (sym e)
      (record { indexed = v'.indexed; listed = v'.listed; allocated = v'.allocated })

destroy-IsSynced : (k : Keeper) (key : Text) → IsSynced k → IsSynced (destroy k key)
unfolding destroy
destroy-IsSynced k key v =
    let v' = forget-IsSynced k key v in
    record { indexed = v'.indexed; listed = v'.listed; allocated = v'.allocated }

-- A call of the keeper. A kept session has a key that is not in memory, as a generated key is.
pub data Call : Keeper → Keeper → Type 0 where
  got : (now : ℕ) (k : Keeper) (key : Text) → Call k (get now k key).1
  kept :
      (now : ℕ) (k : Keeper) (key : Text) (user : ℕ)
      → find k.index key ≡ none
      → Call k (keep now k key user).1
  destroyed : (k : Keeper) (key : Text) → Call k (destroy k key)

pub data Calls : Keeper → Keeper → Type 0 where
  done : (k : Keeper) → Calls k k
  also : (k l m : Keeper) → Call k l → Calls l m → Calls k m

Call-IsSynced : (k l : Keeper) → Call k l → IsSynced k → IsSynced l
Call-IsSynced k _ (got now _ key) v = get-IsSynced now k key v
Call-IsSynced k _ (kept now _ key user new) v = keep-IsSynced now k key user v new
Call-IsSynced k _ (destroyed _ key) v = destroy-IsSynced k key v

-- Whatever calls of Get, Keep and Destroy the keeper answers, its map and its list stay in step:
-- each key leads to the element that holds its session, and each session in the list is found by
-- its key. A new session's key is not one in memory.
pub Calls-IsSynced : (k l : Keeper) → Calls k l → IsSynced k → IsSynced l
Calls-IsSynced k _ (done _) v = v
Calls-IsSynced k l (also _ m _ c cs) v = Calls-IsSynced m l cs (Call-IsSynced k m c v)

get_remembered :
    (now now' : ℕ) (k : Keeper) (key : Text) (user : ℕ) (rows : List (Text × Row))
    → (get now' (record (remember now k key user) { rows = rows }) key).0 ≡ some user
unfolding remember
get_remembered now now' k key user rows =
    let s : Session = record { key = key; user = user; access = now } in
    let k' : Keeper = record (remember now k key user) { rows = rows } in
    let id : ℕ = (push_front k.sessions s).0 in
    let there : find k'.index key ≡ some id =
      ground (arith, find-put k.index key key id, text_eq_refl key) in
    let held : value k'.sessions id ≡ some s = ground (
      arith,
      push_front_id k.sessions s,
      value-push_front k.sessions s id,
      ==_refl id,
      ==_iff k.sessions.next_id id,
    ) in
    ap (λ r. r.0) (get_hit now' k' key id there) ∙ ap (λ r. r.0) (get_cached-some now' k' id s held)

-- A session that was kept is found with its user, whatever the table of sessions holds by then.
pub get-keep :
    (now now' : ℕ) (k : Keeper) (key : Text) (user : ℕ)
    → (get now' (keep now k key user).1 key).0 ≡ some user
get-keep now now' k key user =
    let (rows, e) = keep_sessions now k key user in
    ap (λ r. (get now' r key).0) e ∙ get_remembered now now' k key user rows

-- A session that was destroyed is found no more, neither in memory nor in the table.
pub get-destroy :
    (now : ℕ) (k : Keeper) (key : Text) → get now (destroy k key) key ≡ (none, destroy k key)
unfolding destroy Table.retrieve Table.erase
get-destroy now k key =
    get_miss now (destroy k key) key (forget_forgets k key)
      (ground (arith, find-delete (forget k key).rows key key, text_eq_refl key))

expunge_fresh :
    (offload : ℕ) (es : List (ℕ × Session)) (id : ℕ) (s : Session) (k : Keeper)
    → offload < s.access
    → expunge offload (es ++ (id, s) ∷ []) k ≡ (k, [], false)
unfolding expunge
expunge_fresh offload [] id s k fresh = ground (arith, fresh)
expunge_fresh offload ((i, t) ∷ es) id s k fresh =
    ground (arith, expunge_fresh offload es id s k fresh)

-- A sweep stops at once when the session at the back of the list was touched in time: however long
-- the other sessions have been idle, they all stay in memory, and the expiration of none is moved.
pub gc_blocked :
    (now : ℕ) (k : Keeper) (es : List (ℕ × Session)) (id : ℕ) (s : Session)
    → k.sessions.elements ≡ es ++ (id, s) ∷ []
    → now - k.offload_after < s.access
    → gc now k ≡ (record k { rows = Table.collect_expired now k.rows })
unfolding gc Table.update_expiration
gc_blocked now k es id s elements fresh =
    let e =
      ap (λ xs. expunge (now - k.offload_after) xs k) elements
      ∙ expunge_fresh (now - k.offload_after) es id s k fresh in
    ap
      (λ r. record r.0 {
        rows = Table.collect_expired now (Table.update_expiration now r.0.rows r.1);
      })
      e

-- A session that is asked for while it is in memory keeps its place in the list, although its time
-- is renewed.
pub get_order :
    (now : ℕ) (k : Keeper) (key : Text) (id : ℕ)
    → find k.index key ≡ some id
    → ids (get now k key).1.sessions ≡ ids k.sessions
get_order now k key id h = elim (Option-cases (value k.sessions id)) [
  | inl gone ↦ ap (λ r. ids r.1.sessions) (get_hit now k key id h ∙ get_cached-none now k id gone)
  | inr (s, held) ↦
      ap (λ r. ids r.1.sessions) (get_hit now k key id h ∙ get_cached-some now k id s held)
      ∙ ids-set_value k.sessions id (record s { access = now })
]
