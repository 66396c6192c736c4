-- ===== src/Metadata/Describe/Moved.antt =====
-- Which description each post has after moveDescription (DataManager/duplicates.go).
use mathlib.Core.Path.{subst}
use pbooru.Log.{run_actions, Logger}
use pbooru.Metadata.Describe.{description_of, describe_by, descrs, move_description}
use pbooru.Text.{Text}
use pbooru.Prelude.{
  ==_iff, >>=-eq-ok, Bool-cases, List, [], ap, arith, false, if◌then◌else◌, inl, inr, is_empty, mem,
  ok, or_fail, or_fail-eq-ok, refl, some, sym, true, ℕ, ◌==◌, ◌∙◌, ◌∷◌, ◌≡◌,
}
use pbooru.Metadata.{State, PostRow, MetaAction, Error, no_rows}
use pbooru.Metadata.Describe.Kept.{IsInfix, HasPair, emptied, mem_ids}
use pbooru.Metadata.Describe.Runs.{HasPair-mem, run-describe_by}

descrs-mem :
    (p : ℕ) (inferior : List ℕ) (posts : List PostRow) (ds : List (ℕ × Text))
    → descrs inferior posts ≡ ok ds
    → mem p inferior ≡ false
    → mem_ids p ds ≡ false
unfolding descrs
descrs-mem p [] posts ds h out =
    let e : [] ≡ ds = ground (arith, h) in subst (λ z. mem_ids p z ≡ false) e refl
descrs-mem p (q ∷ inferior) posts ds h out =
    let (t, known, h1) = >>=-eq-ok (or_fail (description_of q posts) no_rows) _ h in
    let (rest, found, h2) = >>=-eq-ok (descrs inferior posts) _ h1 in
    let e : (if is_empty t then rest else (q, t) ∷ rest) ≡ ds = ground (arith, h2) in
    subst (λ z. mem_ids p z ≡ false) e (ground (arith, descrs-mem p inferior posts rest found, out))

descrs-HasPair :
    (p : ℕ) (u : Text) (inferior : List ℕ) (posts : List PostRow) (ds : List (ℕ × Text))
    → descrs inferior posts ≡ ok ds
    → mem p inferior ≡ true
    → description_of p posts ≡ some u
    → is_empty u ≡ false
    → HasPair p u ds
unfolding descrs
descrs-HasPair p u [] posts ds h i known full = absurd (ground (arith, i))
descrs-HasPair p u (q ∷ inferior) posts ds h i known full =
    let (t, at, h1) = >>=-eq-ok (or_fail (description_of q posts) no_rows) _ h in
    let (rest, found, h2) = >>=-eq-ok (descrs inferior posts) _ h1 in
    let at' : description_of q posts ≡ some t = or_fail-eq-ok (description_of q posts) no_rows at in
    let e : (if is_empty t then rest else (q, t) ∷ rest) ≡ ds = ground (arith, h2) in
    subst (HasPair p u) e (elim (Bool-cases (p == q)) [
      | inl k ↦
          let same : p ≡ q = (==_iff p q).0 k in
          let text : u ≡ t = ground (arith, known, at', ap (λ z. description_of z posts) same) in
          head q t rest same text
      | inr k ↦
          tail q t rest
            (descrs-HasPair p u inferior posts rest found (ground (arith, i, k)) known full)
    ])
  where
    head :
        (q : ℕ) (t : Text) (rest : List (ℕ × Text))
        → p ≡ q
        → u ≡ t
        → HasPair p u (if is_empty t then rest else (q, t) ∷ rest)
    head q t rest same text =
        let no' : is_empty t ≡ false = ap is_empty (sym text) ∙ full in
        rw no' (inl (λ i. (same i, text i)))

    tail :
        (q : ℕ) (t : Text) (rest : List (ℕ × Text))
        → HasPair p u rest
        → HasPair p u (if is_empty t then rest else (q, t) ∷ rest)
    tail q t rest m = elim (Bool-cases (is_empty t)) [ inl e ↦ rw e m | inr e ↦ rw e (inr m) ]

-- If the description of the superior and of each inferior is found, and the superior is no inferior,
-- the actions that moveDescription adds run without an error. Then the superior has a description in
-- which its own, and each one of an inferior, stands whole; the inferiors that had one have none, and
-- the descriptions of the other posts are what they were.
pub move_description_exact :
    (itoa : ℕ → Text) (p : ℕ) (inferior : List ℕ) (s : State) (acts : List MetaAction)
    → mem p inferior ≡ false
    → move_description itoa p inferior s ≡ ok acts
    → (s' : State) × (logs : List (Logger State Error)) × (run_actions acts s [] ≡ ok (s', logs))
      × ((x : ℕ)
          → mem x inferior ≡ false
          → (x == p) ≡ false
          → description_of x s'.posts ≡ description_of x s.posts)
      × ((d : Text) × (dest : Text) × (description_of p s.posts ≡ some dest)
          × (description_of p s'.posts ≡ some d)
          × IsInfix dest d
          × ((q : ℕ) (t : Text)
              → mem q inferior ≡ true
              → description_of q s.posts ≡ some t
              → is_empty t ≡ false
              → (description_of q s'.posts ≡ some []) × IsInfix t d))
unfolding move_description
move_description_exact itoa p inferior s acts out h =
    let (dest, at, h1) = >>=-eq-ok (or_fail (description_of p s.posts) no_rows) _ h in
    let (ds, found, h2) = >>=-eq-ok (descrs inferior s.posts) _ h1 in
    let known = or_fail-eq-ok (description_of p s.posts) no_rows at in
    let e : describe_by itoa p dest ds ≡ acts = ground (arith, h2) in
    let (s', logs, ran, (others, gone, (d, now, own, each))) =
      run-describe_by itoa p dest ds s (descrs-mem p inferior s.posts ds found out) known in
    (
      s',
      logs,
      ap (λ as'. run_actions as' s []) (sym e) ∙ ran,
      λ x o ne. others x (descrs-mem x inferior s.posts ds found o) ne,
      (
        d,
        dest,
        known,
        now,
        own,
        λ q t i at' full.
            let pair = descrs-HasPair q t inferior s.posts ds found i at' full in
            (gone q (HasPair-mem q t ds pair) ∙ ap emptied at', each q t pair),
      ),
    )
