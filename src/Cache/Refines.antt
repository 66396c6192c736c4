-- ===== src/Cache/Refines.antt =====
-- The cache of DataManager/cache/generic_cache.go against a map that may forget.
use mathlib.Core.Path.{subst}
use pbooru.Prelude.{
  ==_iff, Bool, List, Option-cases, [], ap, arith, false, if◌then◌else◌, inl, inr, none, refl, some,
  sym, true, ℕ, ◌==◌, ◌∷◌, ◌≡◌, length, suc, zero, ◌-◌, ◌∙◌,
}
use pbooru.Maps.Ints.{find_at}
use pbooru.LinkedList.{value, back}
use pbooru.Cache.{
  Tracer, Generic, touch, get_element, get_found, get, set, del, purge, set_found, del_found,
  purge_back, sweep, set_element, drop_element, add_new,
}
use pbooru.Cache.Purges.{purge-IsCache}
use pbooru.Cache.Calls.{
  Call, call_get, call_set, call_del, call_purge, perform, perform_all, looked_up, IsStep, IsRun,
  start, next, item_of, view,
}
use pbooru.Cache.Entries.{
  element_at, IsCache, entry-touch, touch-IsCache, drop_element-IsCache, add_new-IsCache,
  entry-drop_element, entry-add_new,
}

module _ {V : Type 0} where
  -- the found element of a key
  element-found :
      (c : Generic V) (key i : ℕ)
      → IsCache c
      → find_at c.entries key ≡ some i
      → (t : Tracer V) × (value c.list i ≡ some t) × (t.key ≡ key)
  element-found c key i k e = k.synced.indexed key i e

  missing-get :
      (now key : ℕ) (c : Generic V)
      → find_at c.entries key ≡ none
      → get now key c ≡ ((c.zero, false), c)
  unfolding get get_found
  missing-get now key c e = rw (e, get_found) refl

  found-get :
      (now key i : ℕ) (t : Tracer V) (c : Generic V)
      → find_at c.entries key ≡ some i
      → value c.list i ≡ some t
      → get now key c ≡ ((t.item, true), touch i (record t { access = now }) c)
  unfolding get get_found get_element
  found-get now key i t c e h = rw (e, get_found, h, get_element) refl

  get-IsStep :
      (now key : ℕ) (c : Generic V)
      → IsCache c
      → IsCache (get now key c).1
        × IsStep c.zero
            (call_get now key)
            (view c)
            (some (get now key c).0)
            (view (get now key c).1)
        × ((get now key c).1.zero ≡ c.zero)
  unfolding get get_found get_element element_at looked_up item_of touch
  get-IsStep now key c k = elim (Option-cases (find_at c.entries key)) [
    | inl e ↦
        subst
          (λ (r : (V × Bool) × Generic V).
            IsCache r.1
            × IsStep c.zero (call_get now key) (view c) (some r.0) (view r.1)
            × (r.1.zero ≡ c.zero))
          (sym (missing-get now key c e)) (k, (ground (arith, e), λ j. refl), refl)
    | inr (i, e) ↦
        let (t, h, named) = element-found c key i k e in
        let u : Tracer V = record t { access = now } in
        subst
          (λ (r : (V × Bool) × Generic V).
            IsCache r.1
            × IsStep c.zero (call_get now key) (view c) (some r.0) (view r.1)
            × (r.1.zero ≡ c.zero))
          (sym (found-get now key i t c e h))
          (
            touch-IsCache c i u t k h refl,
            (
              ground (arith, e, h),
              λ j. ground (
                arith,
                entry-touch c i key j u t k.synced e h,
                e,
                h,
                ==_iff key j,
                λ (z : key ≡ j). ap (find_at c.entries) z,
              ),
            ),
            refl,
          )
  ]

  -- what is shown of a changed cache
  abbrev Sets : ℕ → V → Generic V → Generic V → Type 0
  Sets key v c c' =
      IsCache c'
      × ((j : ℕ) → view c' j ≡ (if key == j then some v else view c j))
      × (c'.zero ≡ c.zero)

  set-Sets : (now key : ℕ) (v : V) (c : Generic V) → IsCache c → Sets key v c (set now key v c)
  unfolding set set_found set_element item_of touch add_new
  set-Sets now key v c k = elim (Option-cases (find_at c.entries key)) [
    | inl e ↦
        let same : set now key v c ≡ add_new now key v c = rw (e, set_found) refl in
        subst (Sets key v c) (sym same) (
          add_new-IsCache now key v c k e,
          λ j. ground (arith, entry-add_new now key v c j k.synced),
          refl,
        )
    | inr (i, e) ↦
        let (t, h, named) = element-found c key i k e in
        let u : Tracer V = record t { item = v; access = now } in
        let same : set now key v c ≡ touch i u c = rw (e, set_found, h, set_element) refl in
        subst (Sets key v c) (sym same) (
          touch-IsCache c i u t k h refl,
          λ j. ground (arith, entry-touch c i key j u t k.synced e h),
          refl,
        )
  ]

  abbrev Deletes : ℕ → Generic V → Generic V → Type 0
  Deletes key c c' =
      IsCache c'
      × ((j : ℕ) → view c' j ≡ (if key == j then none else view c j))
      × (c'.zero ≡ c.zero)

  del-Deletes : (key : ℕ) (c : Generic V) → IsCache c → Deletes key c (del key c)
  unfolding del del_found item_of drop_element element_at
  del-Deletes key c k = elim (Option-cases (find_at c.entries key)) [
    | inl e ↦
        let same : del key c ≡ c = rw (e, del_found) refl in
        subst (Deletes key c) (sym same)
          (k, λ j. ground (arith, e, ==_iff key j, λ (z : key ≡ j). ap (find_at c.entries) z), refl)
    | inr (i, e) ↦
        let (t, h, named) = element-found c key i k e in
        let same : del key c ≡ drop_element key i c = rw (e, del_found) refl in
        subst (Deletes key c) (sym same) (
          subst (λ z. IsCache (drop_element z i c)) named (drop_element-IsCache c i t k h),
          λ j. ground (arith, entry-drop_element c i key j k.synced e),
          refl,
        )
  ]

  zero-purge_back : (fuel expired : ℕ) (c : Generic V) → (purge_back fuel expired c).zero ≡ c.zero
  unfolding purge_back drop_element
  zero-purge_back zero expired c = refl
  zero-purge_back (suc fuel) expired c = elim (Option-cases (back c.list)) [
    | inl e ↦ ground (arith, e)
    | inr ((id, t), e) ↦ ground (arith, e, zero-purge_back fuel expired (drop_element t.key id c))
  ]

  zero-sweep :
      (max_life : ℕ) (es : List (ℕ × Tracer V)) (c : Generic V)
      → (sweep max_life es c).zero ≡ c.zero
  unfolding sweep drop_element
  zero-sweep max_life [] c = refl
  zero-sweep max_life ((i, u) ∷ es) c = ground (arith, zero-sweep max_life es c)

  zero-purge : (now : ℕ) (c : Generic V) → (purge now c).zero ≡ c.zero
  unfolding purge
  zero-purge now c =
      let left = purge_back (length c.list.elements) (now - c.expire_after) c in
      ground (
        arith,
        zero-purge_back (length c.list.elements) (now - c.expire_after) c,
        zero-sweep (now - c.max_life_time) left.list.elements left,
      )

  forgotten : item_of {V = V} none ≡ none
  unfolding item_of
  forgotten = refl

  perform-IsStep :
      (call : Call V) (c : Generic V)
      → IsCache c
      → IsCache (perform call c).1
        × IsStep c.zero call (view c) (perform call c).0 (view (perform call c).1)
        × ((perform call c).1.zero ≡ c.zero)
  unfolding perform
  perform-IsStep (call_get now key) c k = get-IsStep now key c k
  perform-IsStep (call_set now key v) c k = set-Sets now key v c k
  perform-IsStep (call_del key) c k = del-Deletes key c k
  perform-IsStep (call_purge now) c k =
      let (k', kept) = purge-IsCache now c k in
      (
        k',
        λ j. elim (kept j) [
          | inl same ↦ inl (ap item_of same)
          | inr (t, was, old, gone) ↦ inr (ap item_of gone ∙ forgotten)
        ],
        zero-purge now c,
      )

  -- Any run of calls on a cache whose map and list agree is a run of the specification, with the same
  -- answers: a Get returns what the map holds and changes nothing, a Set and a Del change their key
  -- alone, and a purge may only forget keys. The map and the list agree afterwards.
  pub perform_all-IsRun :
      (calls : List (Call V)) (c : Generic V)
      → IsCache c
      → IsCache (perform_all calls c).1
        × IsRun c.zero calls (view c) (perform_all calls c).0 (view (perform_all calls c).1)
  unfolding perform_all
  perform_all-IsRun [] c k = (k, start)
  perform_all-IsRun (call ∷ calls) c k =
      let (k1, step, same) = perform-IsStep call c k in
      let (k2, run) = perform_all-IsRun calls (perform call c).1 k1 in
      (
        k2,
        next step (
            subst
              (λ z.
                IsRun z calls (view (perform call c).1) (perform_all calls (perform call c).1).0
                  (view (perform_all calls (perform call c).1).1))
              same run),
      )
