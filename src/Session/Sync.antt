-- ===== src/Session/Sync.antt =====
-- The map and the list of the keeper of DataManager/session/keeper.go, call by call.
use pbooru.Prelude.{
  ℕ, ◌≡◌, sym, ap, none, some, arith, ◌==◌, ==_iff, ==_refl, Bool-cases, Option-cases, inl, inr,
}
use mathlib.Core.Path.{subst}
use pbooru.Text.{Text, text_eq, text_eq_iff, text_eq_refl}
use pbooru.Maps
use pbooru.Maps.{find, put, find-delete, find-put}
use pbooru.LinkedList.{
  value, push_front, remove, set_value, IsAllocated, value-remove, value-set_value,
  value-push_front, next_id-set_value, next_id-remove, push_front_id,
}
use pbooru.Session.{Session, Keeper, remember, forget}

pub record IsSynced (k : Keeper) : Type 0 where
  pub indexed :
      (key : Text) (id : ℕ)
      → find k.index key ≡ some id
      → (s : Session) × (value k.sessions id ≡ some s) × (s.key ≡ key)
  pub listed : (id : ℕ) (s : Session) → value k.sessions id ≡ some s → find k.index s.key ≡ some id
  pub allocated : IsAllocated k.sessions

pub touch-IsSynced :
    (k : Keeper) (id now : ℕ) (s : Session)
    → IsSynced k
    → value k.sessions id ≡ some s
    → IsSynced (record k { sessions = set_value k.sessions id (record s { access = now }) })
touch-IsSynced k id now s v h = record {
  indexed = λ key j e.
      let (t, m, same) = v.indexed key j e in
      elim (Bool-cases (id == j)) [
        | inl hit ↦ (
          record s { access = now },
          ground (arith, value-set_value k.sessions id j (record s { access = now }) s h),
          ground (arith, ==_iff id j, λ (e' : id ≡ j). ap (value k.sessions) e', m, h, same),
        )
        | inr miss ↦ (
          t,
          ground (arith, value-set_value k.sessions id j (record s { access = now }) s h, m),
          same,
        )
      ];
  listed = λ j t m. ground (
    arith,
    value-set_value k.sessions id j (record s { access = now }) s h,
    v.listed j t,
    v.listed id s h,
    ==_iff id j,
  );
  allocated = λ j le. ground (
    arith,
    next_id-set_value k.sessions id (record s { access = now }),
    value-set_value k.sessions id j (record s { access = now }) s h,
    v.allocated j,
    ==_iff id j,
    λ (e' : id ≡ j). ap (value k.sessions) e',
  );
}

pub remember-IsSynced :
    (now : ℕ) (k : Keeper) (key : Text) (user : ℕ)
    → IsSynced k
    → find k.index key ≡ none
    → IsSynced (remember now k key user)
unfolding remember
remember-IsSynced now k key user v new =
    let s : Session = record { key = key; user = user; access = now } in
    let (here, next) = push_front_id k.sessions s in
    let at = λ (j : ℕ). value-push_front k.sessions s j in
    let unused = v.allocated k.sessions.next_id (ground arith) in
    record {
      indexed = λ key' j e. elim (Bool-cases (text_eq key key')) [
        | inl same ↦ (
          s,
          ground (
            arith,
            here,
            next,
            at j,
            e,
            find-put k.index key key' (push_front k.sessions s).0,
            ==_refl k.sessions.next_id,
            ==_iff k.sessions.next_id j,
          ),
          ground (arith, text_eq_iff key key'),
        )
        | inr other ↦
            let old : find k.index key' ≡ some j =
              ground (arith, e, find-put k.index key key' (push_front k.sessions s).0) in
            let (t, m, same) = v.indexed key' j old in
            (
              t,
              ground (
                arith,
                at j,
                m,
                unused,
                ==_iff k.sessions.next_id j,
                λ (e' : k.sessions.next_id ≡ j). ap (value k.sessions) e',
              ),
              same,
            )
      ];
      listed = λ j t m. elim (Bool-cases (k.sessions.next_id == j)) [
        | inl new_one ↦
            let is_s : t ≡ s = ground (arith, at j, m) in
            ground (
              arith,
              here,
              is_s,
              find-put k.index key t.key (push_front k.sessions s).0,
              text_eq_refl key,
              ap (λ (u : Session). u.key) is_s,
              text_eq_iff key t.key,
              ==_iff k.sessions.next_id j,
            )
        | inr old ↦
            let was : find k.index t.key ≡ some j = v.listed j t (ground (arith, at j, m)) in
            ground (
              arith,
              was,
              find-put k.index key t.key (push_front k.sessions s).0,
              text_eq_iff key t.key,
              new,
              λ (e : key ≡ t.key). ap (find k.index) e,
            )
      ];
      allocated = λ j le. ground (arith, next, at j, v.allocated j, ==_iff k.sessions.next_id j);
    }

forget-some :
    (k : Keeper) (key : Text) (id : ℕ)
    → find k.index key ≡ some id
    → forget k key ≡ (record k { index = Maps.delete k.index key; sessions = remove k.sessions id })
unfolding forget
forget-some k key id found = rw (found, forget)

forget-none : (k : Keeper) (key : Text) → find k.index key ≡ none → forget k key ≡ k
unfolding forget
forget-none k key found = rw (found, forget)

dropped-IsSynced :
    (k : Keeper) (key : Text) (id : ℕ)
    → IsSynced k
    → find k.index key ≡ some id
    → IsSynced (record k { index = Maps.delete k.index key; sessions = remove k.sessions id })
dropped-IsSynced k key id v found =
    let (s, m, named) = v.indexed key id found in
    record {
      indexed = λ key' j e.
          let old : find k.index key' ≡ some j = ground (arith, e, find-delete k.index key key') in
          let (t, m', named') = v.indexed key' j old in
          (
            t,
            ground (
              arith,
              value-remove k.sessions id j,
              m,
              m',
              named,
              named',
              e,
              find-delete k.index key key',
              ==_iff id j,
              λ (e' : id ≡ j). ap (value k.sessions) e',
              text_eq_iff key key',
              λ (e' : s ≡ t). ap (λ (u : Session). u.key) e',
            ),
            named',
          );
      listed = λ j t m'.
          let was : find k.index t.key ≡ some j =
            v.listed j t (ground (arith, value-remove k.sessions id j, m')) in
          ground (
            arith,
            was,
            value-remove k.sessions id j,
            m',
            find-delete k.index key t.key,
            found,
            ==_iff id j,
            text_eq_iff key t.key,
            λ (e' : key ≡ t.key). ap (find k.index) e',
          );
      allocated = λ j le.
          ground (arith, next_id-remove k.sessions id, value-remove k.sessions id j, v.allocated j);
    }

pub forget-IsSynced : (k : Keeper) (key : Text) → IsSynced k → IsSynced (forget k key)
forget-IsSynced k key v = elim (Option-cases (find k.index key)) [
  | inl found ↦ subst IsSynced (sym (forget-none k key found)) v
  | inr (id, found) ↦
      subst IsSynced (sym (forget-some k key id found)) (dropped-IsSynced k key id v found)
]

pub forget_forgets : (k : Keeper) (key : Text) → find (forget k key).index key ≡ none
forget_forgets k key = elim (Option-cases (find k.index key)) [
  | inl found ↦ subst (λ r. find r.index key ≡ none) (sym (forget-none k key found)) found
  | inr (id, found) ↦
      subst (λ r. find r.index key ≡ none) (sym (forget-some k key id found))
        (ground (arith, find-delete k.index key key, text_eq_refl key))
]
