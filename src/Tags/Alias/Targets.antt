-- ===== src/Tags/Alias/Targets.antt =====
-- The tags that `updatePtm` gives to posts: upgraded sets under a flat alias table.
use pbooru.Prelude.{
  ℕ, ◌≡◌, sym, ◌∙◌, ap, true, false, not, ◌&&◌, ◌||◌, List, [], ◌∷◌, ◌⊎◌, ◌↔◌, arith, mem, ◌==◌,
  Bool-cases, inl, inr, ==_iff, some,
}
use pbooru.Sets.{SetLib, from_list, mem-add_all}
use pbooru.Database.{Table}
use pbooru.Tags.Error.{ok, or_fail, out_of_fuel, >>=-eq-ok, or_fail-eq-ok}
use pbooru.Tags.Family.{aliased_to, add_aliased, aliases, upgrade}
use pbooru.Tags.Family.Ancestors.{Ancestry, start, up}
use pbooru.Tags.Family.Closure.{parents_exact}
use pbooru.Tags.Store.{Store}
use pbooru.Tags.Alias.{ptm_targets}
use pbooru.Tags.Alias.Resolution.{aliases_sound}

pub Ancestry_mono :
    (par : Table) (xs ys : List ℕ)
    → ((x : ℕ) → mem x xs ≡ true → mem x ys ≡ true)
    → {x : ℕ} → Ancestry par xs x
    → Ancestry par ys x
Ancestry_mono par xs ys h (start m) = start (h _ m)
Ancestry_mono par xs ys h (up a row) = up (Ancestry_mono par xs ys h a) row

pub Ancestry-split :
    (par : Table) (a : ℕ) (xs : List ℕ)
    → {x : ℕ} → Ancestry par (a ∷ xs) x
    → Ancestry par (a ∷ []) x ⊎ Ancestry par xs x
Ancestry-split par a xs (start {x = x} m) = elim (Bool-cases (x == a)) [
  | inl e ↦ inl (start (ground arith))
  | inr e ↦ inr (start (ground arith))
]
Ancestry-split par a xs (up c row) = elim (Ancestry-split par a xs c) [
  | inl l ↦ inl (up l row)
  | inr r ↦ inr (up r row)
]

module _ (S : SetLib) where
  open S use {Set, elems, new, add, union, diff, elems_new, mem_add, mem_union, mem_diff}

  add_aliased_complete :
      (alias : Table) (x : ℕ) (tags : List ℕ) (acc : Set)
      → ((mem x (elems acc) ≡ true) ⊎ ((t : ℕ) × (mem t tags ≡ true) × (aliased_to alias t ≡ x)))
      → mem x (elems (add_aliased S alias tags acc)) ≡ true
  unfolding add_aliased
  add_aliased_complete alias x [] acc (inl m) = m
  add_aliased_complete alias x [] acc (inr (t, m, e)) = absurd (cc)
  add_aliased_complete alias x (t ∷ tags) acc (inl m) =
      add_aliased_complete alias x tags (add (aliased_to alias t) acc)
        (inl (ground (arith, mem_add x (aliased_to alias t) acc)))
  add_aliased_complete alias x (t ∷ tags) acc (inr (u, m, e)) = elim (Bool-cases (u == t)) [
    | inl same ↦
        let e' : aliased_to alias t ≡ x = ap (aliased_to alias) (sym ((==_iff u t).0 same)) ∙ e in
        add_aliased_complete alias x tags (add (aliased_to alias t) acc)
          (inl (ground (arith, mem_add x (aliased_to alias t) acc, ==_iff x (aliased_to alias t))))
    | inr other ↦
        add_aliased_complete alias x tags (add (aliased_to alias t) acc) (inr (u, ground arith, e))
  ]

  aliases_roots :
      (alias : Table) (set : Set)
      → ((x : ℕ) → mem x (elems set) ≡ true → aliased_to alias x ≡ x)
      → (x : ℕ) → (mem x (elems (aliases S alias set)) ≡ true) ↔ (mem x (elems set) ≡ true)
  unfolding aliases
  aliases_roots alias set roots x = (
    λ m.
        let (t, k, e) = aliases_sound S alias set x m in
        let same : t ≡ x = sym (roots t k) ∙ e in ap (λ z. mem z (elems set)) (sym same) ∙ k,
    λ m. add_aliased_complete alias x (elems set) new (inr (x, m, roots x m)),
  )

  -- for a set of tags that resolve to themselves `upgrade` finds their ancestors
  pub upgrade_roots :
      (alias par : Table) (set r : Set)
      → ((x : ℕ) → mem x (elems set) ≡ true → aliased_to alias x ≡ x)
      → upgrade S alias par set ≡ some r
      → (x : ℕ) → (mem x (elems r) ≡ true) ↔ Ancestry par (elems set) x
  unfolding upgrade
  upgrade_roots alias par set r roots h x =
      let (r', e, exact) = parents_exact S par (aliases S alias set) in
      let same : r' ≡ r = cc in
      let back : mem x (elems r') ≡ mem x (elems r) = ap (λ z. mem x (elems z)) same in
      (
        λ m.
            Ancestry_mono par (elems (aliases S alias set)) (elems set)
              (λ y. (aliases_roots alias set roots y).0) ((exact x).0 (back ∙ m)),
        λ a.
            sym back
            ∙ (exact x).1 (
                Ancestry_mono par (elems set) (elems (aliases S alias set))
                  (λ y. (aliases_roots alias set roots y).1) a),
      )

  mem-singleton : (x to : ℕ) → mem x (elems (from_list S (to ∷ []))) ≡ mem x (to ∷ [])
  unfolding from_list
  mem-singleton x to = ground (arith, mem-add_all S x (to ∷ []) new, ap (mem x) elems_new)

  -- the tags that `updatePtm` gives to the posts
  pub ptm_targets_exact :
      (from tos : Set) (to : ℕ) (s : Store)
      → ((x : ℕ) → mem x (to ∷ elems from) ≡ true → aliased_to s.alias x ≡ x)
      → ptm_targets S from to s ≡ ok tos
      → (x : ℕ)
      → (mem x (elems tos) ≡ true) ↔ (
          Ancestry s.parent_tags (to ∷ []) x
          ⊎ ((mem x (elems from) ≡ false) × Ancestry s.parent_tags (elems from) x))
  unfolding ptm_targets
  ptm_targets_exact from tos to s roots h x =
      let (up_to, e1, h1) =
        >>=-eq-ok (or_fail (upgrade S s.alias s.parent_tags (from_list S (to ∷ []))) out_of_fuel) _
          h in
      let (up_from, e2, h2) =
        >>=-eq-ok (or_fail (upgrade S s.alias s.parent_tags from) out_of_fuel) _ h1 in
      let root_to = λ (y : ℕ) (m : mem y (elems (from_list S (to ∷ []))) ≡ true).
        roots y (ground (arith, mem-singleton y to)) in
      let exact_to =
        upgrade_roots s.alias s.parent_tags _ up_to root_to (or_fail-eq-ok _ out_of_fuel e1) x in
      let exact_from =
        upgrade_roots s.alias s.parent_tags from up_from (λ y m. roots y (ground arith))
          (or_fail-eq-ok _ out_of_fuel e2) x in
      let joined : union (diff up_from from) up_to ≡ tos = cc h2 in
      let same : mem x (elems tos)
          ≡ (mem x (elems up_from) && not (mem x (elems from)) || mem x (elems up_to)) =
        ground (
          arith,
          mem_union x (diff up_from from) up_to,
          mem_diff x up_from from,
          ap (λ z. mem x (elems z)) joined,
        ) in
      (
        λ m. elim (Bool-cases (mem x (elems up_to))) [
          | inl k ↦ inl (
              Ancestry_mono s.parent_tags _ (to ∷ []) (λ y n. sym (mem-singleton y to) ∙ n)
                (exact_to.0 k))
          | inr k ↦ inr (ground arith, exact_from.0 (ground arith))
        ],
        λ a. elim a [
          | inl b ↦
              let k : mem x (elems up_to) ≡ true =
                exact_to.1
                  (Ancestry_mono s.parent_tags (to ∷ []) _ (λ y n. mem-singleton y to ∙ n) b) in
              ground arith
          | inr (n, b) ↦ let k : mem x (elems up_from) ≡ true = exact_from.1 b in ground arith
        ],
      )
