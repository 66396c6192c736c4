-- ===== src/Cache/Purges.antt =====
-- What `purge` of DataManager/cache/generic_cache.go removes.
use mathlib.Core.Path.{subst}
use pbooru.Prelude.{
  ==_iff, ==_refl, Bool-cases, List, Option-cases, [], ap, arith, inl, inr, ltb, map, mem, none,
  refl, some, suc, sym, zero, ℕ, ◌==◌, ◌∙◌, ◌∷◌, ◌≡◌, ◌≤◌, ◌⊎◌, length, ◌-◌, ◌<◌, ◌≢◌,
}
use pbooru.LinkedList.{value, value_in, back}
use pbooru.LinkedList.Distinct.{value-back, value_in-mem}
use pbooru.Sets.{IsDistinct}
use pbooru.Maps.Ints.{find_at}
use pbooru.Cache.{Tracer, Generic, drop_element, purge_back, sweep, purge}
use pbooru.Cache.Entries.{entry, element_at, IsCache, entry-drop_element, drop_element-IsCache}

module _ {V : Type 0} where
  -- the entry is kept, or it is gone and was last used, or made, by the given time
  abbrev pub KeptOrOld : (Tracer V → Type 0) → Generic V → Generic V → Type 0
  KeptOrOld Old c c' =
      (j : ℕ)
      → (entry c' j ≡ entry c j)
        ⊎ (t : Tracer V) × (entry c j ≡ some t) × Old t × (entry c' j ≡ none)

  -- one element that is old
  drop-old :
      (Old : Tracer V → Type 0) (c : Generic V) (id : ℕ) (t : Tracer V)
      → IsCache c
      → value c.list id ≡ some t
      → Old t
      → KeptOrOld Old c (drop_element t.key id c)
  unfolding element_at
  drop-old Old c id t k h old j =
      let found = k.synced.listed id t h in
      let e = entry-drop_element c id t.key j k.synced found in
      elim (Bool-cases (t.key == j)) [
        | inl hit ↦ inr (
          t,
          ground
              (arith, found, h, ==_iff t.key j, hit, λ (z : t.key ≡ j). ap (find_at c.entries) z),
          old,
          ground (arith, e, hit),
        )
        | inr miss ↦ inl (ground (arith, e, miss))
      ]

  both :
      (Old : Tracer V → Type 0) (c d e : Generic V)
      → KeptOrOld Old c d
      → KeptOrOld Old d e
      → KeptOrOld Old c e
  both Old c d e first then' j = elim (first j) [
    | inl same ↦ elim (then' j) [
      | inl same' ↦ inl (same' ∙ same)
      | inr (t, was, old, gone) ↦ inr (t, sym same ∙ was, old, gone)
    ]
    | inr (t, was, old, gone) ↦ elim (then' j) [
      | inl same' ↦ inr (t, was, old, same' ∙ gone)
      | inr (u, was', old', gone') ↦ inr (t, was, old, gone')
    ]
  ]

  -- what is shown of a loop, for an equal outcome
  abbrev Keeps : (Tracer V → Type 0) → Generic V → Generic V → Type 0
  Keeps Old c c' = IsCache c' × KeptOrOld Old c c'

  purge_back-kept :
      (fuel expired : ℕ) (c : Generic V)
      → IsCache c
      → Keeps (λ t. t.access ≤ expired) c (purge_back fuel expired c)
  unfolding purge_back
  purge_back-kept zero expired c k = (k, λ j. inl refl)
  purge_back-kept (suc fuel) expired c k =
      let Old = λ (t : Tracer V). t.access ≤ expired in
      elim (Option-cases (back c.list)) [
        | inl e ↦
            let same : purge_back (suc fuel) expired c ≡ c = ground (arith, e) in
            subst (Keeps Old c) (sym same) (k, λ j. inl refl)
        | inr ((id, t), e) ↦ elim (Bool-cases (ltb expired t.access)) [
          | inl fresh ↦
              let same : purge_back (suc fuel) expired c ≡ c = ground (arith, e, fresh) in
              subst (Keeps Old c) (sym same) (k, λ j. inl refl)
          | inr stale ↦
              let h = value-back c.list id t k.distinct e in
              let c1 = drop_element t.key id c in
              let (k2, kept) = purge_back-kept fuel expired c1 (drop_element-IsCache c id t k h) in
              let same : purge_back (suc fuel) expired c ≡ purge_back fuel expired c1 =
                ground (arith, e, stale) in
              subst (Keeps Old c) (sym same)
                (k2, both Old c c1 _ (drop-old Old c id t k h (ground (arith, stale))) kept)
        ]
      ]

  -- the loop from the front removes the first element that is too old, and no other
  pub sweep_one :
      (max_life : ℕ) (es : List (ℕ × Tracer V)) (c : Generic V)
      → IsDistinct (map (λ e. e.0) es)
      → (sweep max_life es c ≡ c)
        ⊎ (id : ℕ) × (t : Tracer V) × (value_in es id ≡ some t)
          × (t.created ≤ max_life)
          × (sweep max_life es c ≡ drop_element t.key id c)
  unfolding sweep value_in
  sweep_one max_life [] c d = inl refl
  sweep_one max_life ((i, u) ∷ es) c (out, d) = elim (Bool-cases (ltb max_life u.created)) [
    | inl young ↦ elim (sweep_one max_life es c d) [
      | inl same ↦ inl (ground (arith, young, same))
      | inr (id, t, m, old, e) ↦ inr (
        id,
        t,
        ground (
          arith,
          m,
          out,
          value_in-mem es id t m,
          ==_iff i id,
          λ (z : i ≡ id). ap (λ y. mem y (map (λ e. e.0) es)) z,
        ),
        old,
        ground (arith, young, e),
      )
    ]
    | inr old ↦ inr (i, u, ground (arith, ==_refl i), ground (arith, old), ground (arith, old))
  ]

  sweep-kept :
      (max_life : ℕ) (c : Generic V)
      → IsCache c
      → Keeps (λ t. t.created ≤ max_life) c (sweep max_life c.list.elements c)
  unfolding value
  sweep-kept max_life c k =
      let Old = λ (t : Tracer V). t.created ≤ max_life in
      elim (sweep_one max_life c.list.elements c k.distinct) [
        | inl same ↦ subst (Keeps Old c) (sym same) (k, λ j. inl refl)
        | inr (id, t, m, old, e) ↦
            subst (Keeps Old c) (sym e)
              (drop_element-IsCache c id t k m, drop-old Old c id t k m old)
      ]

  wider :
      (Old Older : Tracer V → Type 0) (c c' : Generic V)
      → ((t : Tracer V) → Old t → Older t)
      → KeptOrOld Old c c'
      → KeptOrOld Older c c'
  wider Old Older c c' up kept j = elim (kept j) [
    | inl same ↦ inl same
    | inr (t, was, old, gone) ↦ inr (t, was, up t old, gone)
  ]

  -- used last, or made, too long ago
  abbrev pub IsOld : ℕ → Generic V → Tracer V → Type 0
  IsOld now c t = (t.access ≤ now - c.expire_after) ⊎ (t.created ≤ now - c.max_life_time)

  -- On a cache whose map and list agree, a purge leaves them so, and an entry that it removes was last
  -- used or was made too long ago. Every other entry is kept as it is.
  pub purge-IsCache :
      (now : ℕ) (c : Generic V)
      → IsCache c
      → IsCache (purge now c)
        × ((j : ℕ)
            → (entry (purge now c) j ≡ entry c j)
              ⊎ (t : Tracer V) × (entry c j ≡ some t)
                × IsOld now c t
                × (entry (purge now c) j ≡ none))
  unfolding purge
  purge-IsCache now c k =
      let left = purge_back (length c.list.elements) (now - c.expire_after) c in
      let (k1, kept1) = purge_back-kept (length c.list.elements) (now - c.expire_after) c k in
      let first = wider _ (IsOld now c) c left (λ t o. inl o) kept1 in
      let (k2, kept2) = sweep-kept (now - c.max_life_time) left k1 in
      elim (Bool-cases (c.max_life_time == 0)) [
        | inl unlimited ↦
            let same : purge now c ≡ left = ground (arith, unlimited) in
            subst (Keeps (IsOld now c) c) (sym same) (k1, first)
        | inr limited ↦
            let swept = sweep (now - c.max_life_time) left.list.elements left in
            let same : purge now c ≡ swept = ground (arith, limited) in
            subst (Keeps (IsOld now c) c) (sym same) (
              k2,
              both (IsOld now c) c left swept first
                  (wider _ (IsOld now c) left swept (λ t o. inr o) kept2),
            )
      ]

  kept-fresh :
      (fuel expired j : ℕ) (c : Generic V) (t : Tracer V)
      → IsCache c
      → entry c j ≡ some t
      → expired < t.access
      → entry (purge_back fuel expired c) j ≡ some t
  kept-fresh fuel expired j c t k e fresh = elim ((purge_back-kept fuel expired c k).1 j) [
    | inl same ↦ same ∙ e
    | inr (u, was, old, gone) ↦
        let one : t ≡ u = ground (arith, e, was) in
        absurd (omega (arith, ap (λ (z : Tracer V). z.access) one, fresh, old))
  ]

  sweep-keeps_one :
      (max_life i j : ℕ) (c : Generic V)
      → IsCache c
      → i ≢ j
      → (entry (sweep max_life c.list.elements c) i ≡ entry c i)
        ⊎ (entry (sweep max_life c.list.elements c) j ≡ entry c j)
  unfolding value
  sweep-keeps_one max_life i j c k differ = elim (sweep_one max_life c.list.elements c k.distinct) [
    | inl same ↦ inl (ap (λ z. entry z i) same)
    | inr (id, t, m, old, e) ↦
        let found = k.synced.listed id t m in
        elim (Bool-cases (t.key == i)) [
          | inr other ↦ inl (
              ap (λ z. entry z i) e
              ∙ ground (arith, entry-drop_element c id t.key i k.synced found, other))
          | inl hit ↦ inr (
              ap (λ z. entry z j) e
              ∙ ground (
                arith,
                entry-drop_element c id t.key j k.synced found,
                hit,
                differ,
                ==_iff t.key i,
                ==_iff t.key j,
                λ (a : t.key ≡ i) (b : t.key ≡ j). differ (sym a ∙ b),
              ))
        ]
  ]

  -- Of two entries that were used lately, a purge keeps one at least, however long ago they were made.
  pub purge-keeps_one :
      (now i j : ℕ) (c : Generic V) (t u : Tracer V)
      → IsCache c
      → i ≢ j
      → entry c i ≡ some t
      → entry c j ≡ some u
      → now - c.expire_after < t.access
      → now - c.expire_after < u.access
      → (entry (purge now c) i ≡ some t) ⊎ (entry (purge now c) j ≡ some u)
  unfolding purge
  purge-keeps_one now i j c t u k differ ei ej fresh fresh' =
      let fuel = length c.list.elements in
      let left = purge_back fuel (now - c.expire_after) c in
      let ei' = kept-fresh fuel (now - c.expire_after) i c t k ei fresh in
      let ej' = kept-fresh fuel (now - c.expire_after) j c u k ej fresh' in
      elim (Bool-cases (c.max_life_time == 0)) [
        | inl unlimited ↦
            let same : purge now c ≡ left = ground (arith, unlimited) in
            inl (ap (λ z. entry z i) same ∙ ei')
        | inr limited ↦
            let swept = sweep (now - c.max_life_time) left.list.elements left in
            let same : purge now c ≡ swept = ground (arith, limited) in
            elim (sweep-keeps_one (now - c.max_life_time) i j left
              (purge_back-kept fuel (now - c.expire_after) c k).0 differ) [
                | inl e ↦ inl (ap (λ z. entry z i) same ∙ e ∙ ei')
                | inr e ↦ inr (ap (λ z. entry z j) same ∙ e ∙ ej')
              ]
      ]
