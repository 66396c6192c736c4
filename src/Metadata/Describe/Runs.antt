-- ===== src/Metadata/Describe/Runs.antt =====
-- What the actions of `moveDescription` (DataManager/duplicates.go) leave of the descriptions.
use mathlib.Core.Path.{subst}
use mathlib.Core.List.{append-nil}
use pbooru.Log.{run_actions, Logger}
use pbooru.Metadata.Describe.{description_of, clear_all, addenda, describe_by}
use pbooru.Text.{Text}
use pbooru.Prelude.{
  ==_iff, ==_refl, Bool-cases, List, Option, [], ap, arith, false, inl, inr, is_empty, none, ok,
  refl, some, sym, true, ℕ, ◌++◌, ◌==◌, ◌∙◌, ◌∷◌, ◌≡◌,
}
use pbooru.Metadata.{State, PostRow, Error, set_description, change_description}
use pbooru.Metadata.Describe.Kept.{
  IsInfix, HasPair, emptied, replaced, description_of-set, cleared, mem_ids, description_of-cleared,
  run-cleared, infix-addenda, IsKept,
}

ne_of :
    (q p : ℕ) (ds : List (ℕ × Text)) → mem_ids q ds ≡ true → mem_ids p ds ≡ false → (q == p) ≡ false
ne_of q p ds i o = elim (Bool-cases (q == p)) [
  | inl e ↦
      absurd
        (let same : q ≡ p = (==_iff q p).0 e in ground (arith, i, o, ap (λ z. mem_ids z ds) same))
  | inr e ↦ e
]

IsKept-appended :
    (p : ℕ) (dest d : Text) (ds : List (ℕ × Text)) (posts : List PostRow)
    → mem_ids p ds ≡ false
    → description_of p posts ≡ some dest
    → IsInfix dest d
    → ((q : ℕ) (t : Text) → HasPair q t ds → IsInfix t d)
    → IsKept p dest ds posts (set_description p d (cleared ds posts))
IsKept-appended p dest d ds posts out known inside each = (
  λ x o ne. ground (
    arith,
    o,
    ne,
    description_of-set x p d (cleared ds posts),
    description_of-cleared x ds posts,
  ),
  λ q i. ground (
    arith,
    i,
    ne_of q p ds i out,
    description_of-set q p d (cleared ds posts),
    description_of-cleared q ds posts,
  ),
  (
    d,
    ground (
      arith,
      out,
      known,
      ==_refl p,
      description_of-set p p d (cleared ds posts),
      description_of-cleared p ds posts,
    ),
    inside,
    each,
  ),
)

infix_left : (t u : Text) → IsInfix t (t ++ u)
infix_left t u = ([], u, refl)

emptied_eq : (o : Option Text) → replaced [] o ≡ emptied o
emptied_eq none = refl
emptied_eq (some u) = refl

-- dest is empty and one inferior has a description
IsKept-replaced :
    (p q : ℕ) (dest t : Text) (posts : List PostRow)
    → mem_ids p ((q, t) ∷ []) ≡ false
    → description_of p posts ≡ some dest
    → is_empty dest ≡ true
    → IsKept p dest ((q, t) ∷ []) posts (set_description q [] (set_description p t posts))
IsKept-replaced p q [] t posts out known empty = (
  λ x o ne. ground (
    arith,
    o,
    ne,
    description_of-set x q [] (set_description p t posts),
    description_of-set x p t posts,
  ),
  λ k i. emptied_at k ((==_iff k q).0 (ground (arith, i))),
  (
    t,
    ground (
      arith,
      out,
      known,
      ==_refl p,
      description_of-set p q [] (set_description p t posts),
      description_of-set p p t posts,
    ),
    ([], t, refl),
    λ k u pair. elim pair [
      | inl e ↦ let same : u ≡ t = ap (λ (z : ℕ × Text). z.1) e in ([], [], same_infix u same)
      | inr no' ↦ absurd no'
    ],
  ),
)
  where
    same_infix : (u : Text) → u ≡ t → t ≡ u ++ []
    same_infix u e = sym e ∙ sym (append-nil u)

    emptied_at :
        (k : ℕ)
        → k ≡ q
        → description_of k (set_description q [] (set_description p t posts))
          ≡ emptied (description_of k posts)
    emptied_at k e =
        subst
          (λ z.
            description_of z (set_description q [] (set_description p t posts))
            ≡ emptied (description_of z posts))
          (sym e)
          (ground (
            arith,
            ==_refl q,
            ==_iff p q,
            ==_iff q p,
            out,
            description_of-set q q [] (set_description p t posts),
            description_of-set q p t posts,
            emptied_eq (description_of q posts),
          ))
IsKept-replaced p q (c ∷ dest) t posts out known empty = cc

run-last :
    (p : ℕ) (t : Text) (s : State) (logs : List (Logger State Error))
    → (logs' : List (Logger State Error)) × (run_actions (change_description p t ∷ []) s logs
        ≡ ok (record s { posts = set_description p t s.posts }, logs'))
unfolding run_actions change_description
run-last p t s logs = (_, refl)

run-two :
    (p q : ℕ) (t : Text) (s : State)
    → (logs : List (Logger State Error)) × (run_actions
          (change_description p t ∷ (change_description q [] ∷ []))
          s
          []
        ≡ ok (record s { posts = set_description q [] (set_description p t s.posts) }, logs))
unfolding run_actions change_description
run-two p q t s = (_, refl)

run-appended :
    (itoa : ℕ → Text) (p : ℕ) (dest : Text) (ds : List (ℕ × Text)) (s : State)
    → (logs : List (Logger State Error)) × (run_actions
          (clear_all ds ++ change_description p (dest ++ addenda itoa ds) ∷ [])
          s
          []
        ≡ ok (
          record s { posts = set_description p (dest ++ addenda itoa ds) (cleared ds s.posts) },
          logs,
        ))
run-appended itoa p dest ds s =
    let (logs, ran) = run-cleared ds (change_description p (dest ++ addenda itoa ds) ∷ []) s [] in
    let (logs', last) =
      run-last p (dest ++ addenda itoa ds) (record s { posts = cleared ds s.posts }) logs in
    (logs', ran ∙ last)

pub HasPair-mem : (q : ℕ) (t : Text) (ds : List (ℕ × Text)) → HasPair q t ds → mem_ids q ds ≡ true
HasPair-mem q t [] m = elim m [ ]
HasPair-mem q t ((k, u) ∷ ds) (inl e) = ground (arith, ==_iff q k, ap (λ (z : ℕ × Text). z.0) e)
HasPair-mem q t ((k, u) ∷ ds) (inr m) = ground (arith, HasPair-mem q t ds m)

pub run-describe_by :
    (itoa : ℕ → Text) (p : ℕ) (dest : Text) (ds : List (ℕ × Text)) (s : State)
    → mem_ids p ds ≡ false
    → description_of p s.posts ≡ some dest
    → (s' : State) × (logs : List (Logger State Error)) × (run_actions
          (describe_by itoa p dest ds)
          s
          []
        ≡ ok (s', logs))
      × IsKept p dest ds s.posts s'.posts
unfolding describe_by
run-describe_by itoa p dest [] s out known = (
  s,
  [],
  unfold run_actions in refl,
  (
    λ x o ne. refl,
    λ q i. cc,
    (
      dest,
      known,
      subst (IsInfix dest) (append-nil dest) (infix_left dest []),
      λ q t no'. absurd no',
    ),
  ),
)
run-describe_by itoa p dest ((q, t) ∷ []) s out known = elim (Bool-cases (is_empty dest)) [
  | inl e ↦ (
    record s { posts = set_description q [] (set_description p t s.posts) },
    (run-two p q t s).0,
    ap (λ acts. run_actions acts s []) (replacing e) ∙ (run-two p q t s).1,
    IsKept-replaced p q dest t s.posts out known e,
  )
  | inr e ↦
      let (logs, ran) = run-appended itoa p dest ((q, t) ∷ []) s in
      (
        record s {
          posts =
              set_description p (dest ++ addenda itoa ((q, t) ∷ []))
                (cleared ((q, t) ∷ []) s.posts);
        },
        logs,
        ap (λ acts. run_actions acts s []) (appending e) ∙ ran,
        IsKept-appended p dest _ ((q, t) ∷ []) s.posts out known (infix_left dest _)
            (infix-addenda itoa dest ((q, t) ∷ [])),
      )
]
  where
    replacing :
        is_empty dest ≡ true
        → describe_by itoa p dest ((q, t) ∷ [])
          ≡ change_description p t ∷ (change_description q [] ∷ [])
    replacing e = unfold describe_by in ground (arith, e)

    appending :
        is_empty dest ≡ false
        → describe_by itoa p dest ((q, t) ∷ [])
          ≡ clear_all ((q, t) ∷ [])
            ++ change_description p (dest ++ addenda itoa ((q, t) ∷ [])) ∷ []
    appending e = unfold describe_by in unfold clear_all in ground (arith, e)
run-describe_by itoa p dest (d ∷ (e ∷ ds)) s out known =
    let all = d ∷ (e ∷ ds) in
    let (logs, ran) = run-appended itoa p dest all s in
    (
      record s { posts = set_description p (dest ++ addenda itoa all) (cleared all s.posts) },
      logs,
      ran,
      IsKept-appended p dest _ all s.posts out known (infix_left dest _)
          (infix-addenda itoa dest all),
    )
