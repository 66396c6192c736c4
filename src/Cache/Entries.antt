-- ===== src/Cache/Entries.antt =====
-- The entry of a key after the changes of the cache of DataManager/cache/generic_cache.go.
use pbooru.Prelude.{
  ==_iff, ==_refl, Bool-cases, Option, Option-cases, ap, arith, if◌then◌else◌, inl, inr, none, some,
  sym, ℕ, ◌==◌, ◌∙◌, ◌≡◌,
}
use pbooru.LinkedList.{value, push_front, value-push_front, push_front_id, ids}
use pbooru.LinkedList.Distinct.{
  remove-IsDistinct, set_value-IsDistinct, push_front-IsDistinct, move_to_front-IsDistinct,
}
use pbooru.Sets.{IsDistinct}
use pbooru.Maps.Ints.{find_at, find_at-put_at, find_at-delete_at}
use pbooru.Cache.{Tracer, Generic, touch, add_new, drop_element}
use pbooru.Cache.Synced.{
  IsSynced, value-touch, value-drop_element, touch-IsSynced, add_new-IsSynced,
  drop_element-IsSynced,
}

module _ {V : Type 0} where
  unfoldable pub element_at : Generic V → Option ℕ → Option (Tracer V)
  element_at c none = none
  element_at c (some id) = value c.list id

  -- what the cache holds for the key
  abbrev pub entry : Generic V → ℕ → Option (Tracer V)
  entry c key = element_at c (find_at c.entries key)

  -- the map and the list agree, and each element stands once in the list
  pub record IsCache (c : Generic V) : Type 0 where
    pub synced : IsSynced c
    pub distinct : IsDistinct (ids c.list)

  -- an element stands under its key only
  own_key :
      (c : Generic V) (i key key' : ℕ)
      → IsSynced c
      → find_at c.entries key ≡ some i
      → find_at c.entries key' ≡ some i
      → key ≡ key'
  own_key c i key key' s e e' =
      let (t, m, named) = s.indexed key i e in
      let (t', m', named') = s.indexed key' i e' in
      let same : t ≡ t' = ground (arith, m, m') in
      sym named ∙ ap (λ (z : Tracer V). z.key) same ∙ named'

  pub entry-touch :
      (c : Generic V) (i key j : ℕ) (t u : Tracer V)
      → IsSynced c
      → find_at c.entries key ≡ some i
      → value c.list i ≡ some u
      → entry (touch i t c) j ≡ (if key == j then some t else entry c j)
  unfolding element_at touch
  entry-touch c i key j t u s e h = elim (Option-cases (find_at c.entries j)) [
    | inl none' ↦ ground (arith, none', e, ==_iff key j, λ (z : key ≡ j). ap (find_at c.entries) z)
    | inr (id, found) ↦ ground (
      arith,
      found,
      value-touch c i id t u h,
      e,
      ==_iff key j,
      ==_iff i id,
      λ (z : key ≡ j). ap (find_at c.entries) z,
      λ (z : i ≡ id). own_key c i key j s e (found ∙ ap some (sym z)),
    )
  ]

  pub touch-IsCache :
      (c : Generic V) (i : ℕ) (t u : Tracer V)
      → IsCache c
      → value c.list i ≡ some u
      → t.key ≡ u.key
      → IsCache (touch i t c)
  unfolding touch
  touch-IsCache c i t u k h same = record {
    synced = touch-IsSynced c i t u k.synced h same;
    distinct = move_to_front-IsDistinct _ i (set_value-IsDistinct c.list i t k.distinct);
  }

  pub entry-drop_element :
      (c : Generic V) (i key j : ℕ)
      → IsSynced c
      → find_at c.entries key ≡ some i
      → entry (drop_element key i c) j ≡ (if key == j then none else entry c j)
  unfolding element_at drop_element
  entry-drop_element c i key j s e = elim (Bool-cases (key == j)) [
    | inl hit ↦ ground (arith, hit, find_at-delete_at c.entries key j)
    | inr miss ↦ elim (Option-cases (find_at c.entries j)) [
      | inl none' ↦ ground (arith, miss, none', find_at-delete_at c.entries key j)
      | inr (id, found) ↦ ground (
        arith,
        miss,
        found,
        find_at-delete_at c.entries key j,
        value-drop_element c key i id,
        ==_iff key j,
        ==_iff i id,
        λ (z : i ≡ id). own_key c i key j s e (found ∙ ap some (sym z)),
      )
    ]
  ]

  pub drop_element-IsCache :
      (c : Generic V) (id : ℕ) (t : Tracer V)
      → IsCache c
      → value c.list id ≡ some t
      → IsCache (drop_element t.key id c)
  unfolding drop_element
  drop_element-IsCache c id t k h = record {
    synced = drop_element-IsSynced c id t k.synced h;
    distinct = remove-IsDistinct c.list id k.distinct;
  }

  pub entry-add_new :
      (now key : ℕ) (v : V) (c : Generic V) (j : ℕ)
      → IsSynced c
      → entry (add_new now key v c) j ≡ (
          if key == j
          then some (record { key = key; item = v; access = now; created = now })
          else entry c j)
  unfolding element_at add_new
  entry-add_new now key v c j s =
      let t : Tracer V = record { key = key; item = v; access = now; created = now } in
      let (here, next) = push_front_id c.list t in
      elim (Bool-cases (key == j)) [
        | inl hit ↦ ground (
          arith,
          hit,
          here,
          find_at-put_at c.entries key j (push_front c.list t).0,
          value-push_front c.list t c.list.next_id,
          ==_refl c.list.next_id,
        )
        | inr miss ↦ elim (Option-cases (find_at c.entries j)) [
          | inl none' ↦
              ground (arith, miss, none', find_at-put_at c.entries key j (push_front c.list t).0)
          | inr (id, found) ↦
              let (w, m, named) = s.indexed j id found in
              ground (
                arith,
                miss,
                found,
                m,
                find_at-put_at c.entries key j (push_front c.list t).0,
                value-push_front c.list t id,
                s.allocated c.list.next_id (ground arith),
                ==_iff c.list.next_id id,
                λ (z : c.list.next_id ≡ id). ap (value c.list) z,
              )
        ]
      ]

  pub add_new-IsCache :
      (now key : ℕ) (v : V) (c : Generic V)
      → IsCache c
      → find_at c.entries key ≡ none
      → IsCache (add_new now key v c)
  unfolding add_new
  add_new-IsCache now key v c k new' = record {
    synced = add_new-IsSynced now key v c k.synced new';
    distinct =
        push_front-IsDistinct c.list _ (k.synced.allocated c.list.next_id (ground arith))
          k.distinct;
  }
