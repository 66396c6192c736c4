-- ===== src/Cache/Synced.antt =====
-- The map and the list of the cache of DataManager/cache/generic_cache.go, call by call.
use pbooru.Prelude.{
  ==_iff, ==_refl, Bool-cases, ap, arith, if◌then◌else◌, inl, inr, none, some, sym, ℕ, ◌==◌, ◌∙◌,
  ◌≡◌,
}
use pbooru.LinkedList.{
  value, push_front, set_value, IsAllocated, value-remove, value-set_value, value-push_front,
  value-move_to_front, next_id-set_value, next_id-remove, next_id-move_to_front, push_front_id,
}
use pbooru.Maps.Ints.{find_at, put_at, find_at-put_at, find_at-delete_at}
use pbooru.Cache.{Tracer, Generic, touch, add_new, drop_element}

module _ {V : Type 0} where
  pub record IsSynced (c : Generic V) : Type 0 where
    pub indexed :
        (key id : ℕ)
        → find_at c.entries key ≡ some id
        → (t : Tracer V) × (value c.list id ≡ some t) × (t.key ≡ key)
    pub listed :
        (id : ℕ) (t : Tracer V) → value c.list id ≡ some t → find_at c.entries t.key ≡ some id
    pub allocated : IsAllocated c.list

  -- the element with the new value, wherever it stands
  pub value-touch :
      (c : Generic V) (i id : ℕ) (t u : Tracer V)
      → value c.list i ≡ some u
      → value (touch i t c).list id ≡ (if i == id then some t else value c.list id)
  unfolding touch
  value-touch c i id t u h =
      value-move_to_front (set_value c.list i t) i id ∙ value-set_value c.list i id t u h

  pub touch-IsSynced :
      (c : Generic V) (i : ℕ) (t u : Tracer V)
      → IsSynced c
      → value c.list i ≡ some u
      → t.key ≡ u.key
      → IsSynced (touch i t c)
  unfolding touch
  touch-IsSynced c i t u s h same =
      let at = λ (j : ℕ). value-touch c i j t u h in
      record {
        indexed = λ key j e.
            let (w, m, named) = s.indexed key j e in
            elim (Bool-cases (i == j)) [
              | inl hit ↦
                  let w_is : w ≡ u =
                    ground (arith, m, h, ==_iff i j, λ (z : i ≡ j). ap (value c.list) z) in
                  (
                    t,
                    ground (arith, at j, hit),
                    same ∙ sym (ap (λ (z : Tracer V). z.key) w_is) ∙ named,
                  )
              | inr miss ↦ (w, ground (arith, at j, miss, m), named)
            ];
        listed = λ j w m. elim (Bool-cases (i == j)) [
          | inl hit ↦
              let w_is : w ≡ t = ground (arith, at j, m, hit) in
              ap (find_at c.entries) (ap (λ (z : Tracer V). z.key) w_is ∙ same)
              ∙ ground (arith, s.listed i u h, ==_iff i j, hit)
          | inr miss ↦ s.listed j w (ground (arith, at j, m, miss))
        ];
        allocated = λ j le. ground (
          arith,
          at j,
          next_id-set_value c.list i t,
          next_id-move_to_front (set_value c.list i t) i,
          s.allocated j,
          h,
          ==_iff i j,
          λ (z : i ≡ j). ap (value c.list) z,
        );
      }

  pub value-drop_element :
      (c : Generic V) (key id j : ℕ)
      → value (drop_element key id c).list j ≡ (if id == j then none else value c.list j)
  unfolding drop_element
  value-drop_element c key id j = value-remove c.list id j

  -- elements with one key are one
  same_key :
      (c : Generic V) (i j : ℕ) (t u : Tracer V) (key : ℕ)
      → IsSynced c
      → value c.list i ≡ some t
      → value c.list j ≡ some u
      → u.key ≡ key
      → i ≡ j
      → t.key ≡ key
  same_key c i j t u key s ht hu named e =
      let one : t ≡ u = ground (arith, ht, hu, ap (value c.list) e) in
      ap (λ (z : Tracer V). z.key) one ∙ named

  pub drop_element-IsSynced :
      (c : Generic V) (id : ℕ) (t : Tracer V)
      → IsSynced c
      → value c.list id ≡ some t
      → IsSynced (drop_element t.key id c)
  unfolding drop_element
  drop_element-IsSynced c id t s h = record {
    indexed = λ key j e.
        let old = s.indexed key j (ground (arith, find_at-delete_at c.entries t.key key, e)) in
        (
          old.0,
          ground (
            arith,
            value-remove c.list id j,
            old.1,
            find_at-delete_at c.entries t.key key,
            e,
            ==_iff id j,
            same_key c id j t old.0 key s h old.1 old.2,
            ==_iff t.key key,
          ),
          old.2,
        );
    listed = λ j w m. ground (
      arith,
      value-remove c.list id j,
      m,
      s.listed j w,
      s.listed id t h,
      find_at-delete_at c.entries t.key w.key,
      ==_iff t.key w.key,
      ==_iff id j,
      ==_refl id,
      λ (z : t.key ≡ w.key). ap (find_at c.entries) z,
    );
    allocated =
        λ j le. ground (arith, next_id-remove c.list id, value-remove c.list id j, s.allocated j);
  }

  pub add_new-IsSynced :
      (now key : ℕ) (v : V) (c : Generic V)
      → IsSynced c
      → find_at c.entries key ≡ none
      → IsSynced (add_new now key v c)
  unfolding add_new
  add_new-IsSynced now key v c s new' =
      let t : Tracer V = record { key = key; item = v; access = now; created = now } in
      let (here, next) = push_front_id c.list t in
      let at = λ (j : ℕ). value-push_front c.list t j in
      let unused = s.allocated c.list.next_id (ground arith) in
      record {
        indexed = λ key' j e. elim (Bool-cases (key == key')) [
          | inl same ↦ (
            t,
            ground (
              arith,
              here,
              at j,
              e,
              find_at-put_at c.entries key key' (push_front c.list t).0,
              same,
              ==_refl c.list.next_id,
              ==_iff c.list.next_id j,
            ),
            ground (arith, ==_iff key key', same),
          )
          | inr other ↦
              let (w, m, named) = s.indexed key' j (
                ground
                  (arith, e, find_at-put_at c.entries key key' (push_front c.list t).0, other)) in
              (
                w,
                ground (
                  arith,
                  at j,
                  m,
                  unused,
                  ==_iff c.list.next_id j,
                  λ (z : c.list.next_id ≡ j). ap (value c.list) z,
                ),
                named,
              )
        ];
        listed = λ j w m. elim (Bool-cases (c.list.next_id == j)) [
          | inl new_one ↦
              let w_is : w ≡ t = ground (arith, at j, m, new_one) in
              ap (find_at (put_at c.entries key (push_front c.list t).0))
                (ap (λ (z : Tracer V). z.key) w_is)
              ∙ ground (
                arith,
                find_at-put_at c.entries key key (push_front c.list t).0,
                ==_refl key,
                here,
                ==_iff c.list.next_id j,
                new_one,
              )
          | inr old ↦
              let was : find_at c.entries w.key ≡ some j =
                s.listed j w (ground (arith, at j, m, old)) in
              ground (
                arith,
                was,
                find_at-put_at c.entries key w.key (push_front c.list t).0,
                new',
                ==_iff key w.key,
                λ (z : key ≡ w.key). ap (find_at c.entries) z,
              )
        ];
        allocated = λ j le. ground (arith, next, at j, s.allocated j, ==_iff c.list.next_id j);
      }
