-- ===== src/Tags/Family/Closure.antt =====
-- The rounds of `parents` of DataManager/tag_set_q.go.
use pbooru.Prelude.{
  ◌↔◌, ℕ, zero, suc, ◌+◌, ◌<◌, ◌≡◌, refl, sym, ◌∙◌, ap, true, false, not, ◌&&◌, ◌||◌, List, [], ◌∷◌,
  some, arith, length, mem, if◌then◌else◌, ==_iff, ==_refl, Bool-cases, List-cases, inl, inr,
}
use pbooru.Sets.{SetLib, add_all, mem-add_all}
use pbooru.Database.{Table, has_row, fst_where}
use pbooru.Tags.Family.{fresh, parents_loop, parents}
use pbooru.Tags.Family.Ancestors.{
  Ancestry, start, up, mem-fst_where, fst_where_sound, unqueried, unqueried-le-length,
  unqueried_strict, IsClosed, reached,
}

module _ (S : SetLib) where
  open S use {Set, elems, new, add, has, union, elems_new, mem_add, has_mem, mem_union}

  mem-fresh :
      (x : ℕ) (q : Set) (rows : List ℕ) (s : Set)
      → mem x (elems (fresh S q rows s)) ≡ (mem x (elems s) || mem x rows && not (mem x (elems q)))
  unfolding fresh
  mem-fresh x q [] s = ground arith
  mem-fresh x q (t ∷ rows) s = ground (
    arith,
    mem-fresh x q rows (if has q t then s else add t s),
    mem_add x t s,
    has_mem q t,
    ==_iff x t,
    λ (e : x ≡ t). ap (λ z. mem z (elems q)) e,
  )

  mem-fresh_new :
      (x : ℕ) (q : Set) (rows : List ℕ)
      → mem x (elems (fresh S q rows new)) ≡ (mem x rows && not (mem x (elems q)))
  mem-fresh_new x q rows =
      mem-fresh x q rows new ∙ ap (λ z. mem x z || mem x rows && not (mem x (elems q))) elems_new

  -- one round: what is queried next are parents in the table, and none was queried before
  abbrev IsFresh : Table → List ℕ → List ℕ → Type 0
  IsFresh par q tq =
      (x : ℕ) → mem x tq ≡ true → (mem x q ≡ false) × (c : ℕ) × (has_row x c par ≡ true)

  round-IsFresh :
      (par : Table) (q tq : Set)
      → IsFresh par
          (elems (union q tq))
          (elems (fresh S (union q tq) (fst_where (elems tq) par) new))
  round-IsFresh par q tq x m =
      let e = mem-fresh_new x (union q tq) (fst_where (elems tq) par) in
      let (c, row, _) = fst_where_sound x (elems tq) par (ground arith) in (ground arith, c, row)

  union_grows : (q tq : Set) (x : ℕ) → mem x (elems q) ≡ true → mem x (elems (union q tq)) ≡ true
  union_grows q tq x h = ground (arith, mem_union x q tq)

  -- a further round leaves fewer rows to query
  round_shrinks :
      (par : Table) (q tq : Set) (x : ℕ) (xs : List ℕ)
      → elems tq ≡ x ∷ xs
      → IsFresh par (elems q) (elems tq)
      → unqueried (elems (union q tq)) par < unqueried (elems q) par
  round_shrinks par q tq x xs e f =
      let here : mem x (elems tq) ≡ true = ap (mem x) e ∙ ap (λ b. b || mem x xs) (==_refl x) in
      let (new', c, row) = f x here in
      unqueried_strict x c (elems q) (elems (union q tq)) par (union_grows q tq) row new'
        (ground (arith, mem_union x q tq))

  loop_done :
      (fuel : ℕ) (par : Table) (set q tq : Set)
      → elems tq ≡ []
      → parents_loop S (suc fuel) par set q tq ≡ some set
  unfolding parents_loop
  loop_done fuel par set q tq e = rw e refl

  loop_more :
      (fuel : ℕ) (par : Table) (set q tq : Set) (x : ℕ) (xs : List ℕ)
      → elems tq ≡ x ∷ xs
      → parents_loop S (suc fuel) par set q tq
        ≡ parents_loop S fuel par
            (add_all S (fst_where (elems tq) par) set)
            (union q tq)
            (fresh S (union q tq) (fst_where (elems tq) par) new)
  unfolding parents_loop
  loop_more fuel par set q tq x xs e = ground (arith, ap length e)

  loop_total :
      (fuel : ℕ) (par : Table) (set q tq : Set)
      → unqueried (elems q) par < fuel
      → IsFresh par (elems q) (elems tq)
      → (r : Set) × (parents_loop S fuel par set q tq ≡ some r)
  loop_total zero par set q tq h f = elim h [ ]
  loop_total (suc fuel) par set q tq h f = elim (List-cases (elems tq)) [
    | inl e ↦ (set, loop_done fuel par set q tq e)
    | inr (x, xs, e) ↦
        let (r, p) =
          loop_total fuel par (add_all S (fst_where (elems tq) par) set) (union q tq)
            (fresh S (union q tq) (fst_where (elems tq) par) new)
            (omega (arith, round_shrinks par q tq x xs e f)) (round-IsFresh par q tq) in
        (r, loop_more fuel par set q tq x xs e ∙ p)
  ]

  abbrev AllReached : Table → List ℕ → List ℕ → Type 0
  AllReached par tags xs = (x : ℕ) → mem x xs ≡ true → Ancestry par tags x

  rows_reached :
      (par : Table) (tags : List ℕ) (tq : Set)
      → AllReached par tags (elems tq)
      → AllReached par tags (fst_where (elems tq) par)
  rows_reached par tags tq ht x m =
      let (c, row, k) = fst_where_sound x (elems tq) par m in up (ht c k) row

  set_reached :
      (par : Table) (tags rows : List ℕ) (set : Set)
      → AllReached par tags (elems set)
      → AllReached par tags rows
      → AllReached par tags (elems (add_all S rows set))
  set_reached par tags rows set hs hr x m = elim (Bool-cases (mem x rows)) [
    | inl e ↦ hr x e
    | inr e ↦ hs x (ground (arith, mem-add_all S x rows set))
  ]

  fresh_reached :
      (par : Table) (tags rows : List ℕ) (q : Set)
      → AllReached par tags rows
      → AllReached par tags (elems (fresh S q rows new))
  fresh_reached par tags rows q hr x m = hr x (ground (arith, mem-fresh_new x q rows))

  loop_sound :
      (fuel : ℕ) (par : Table) (tags : List ℕ) (set q tq r : Set)
      → AllReached par tags (elems set)
      → AllReached par tags (elems tq)
      → parents_loop S fuel par set q tq ≡ some r
      → AllReached par tags (elems r)
  unfolding parents_loop
  loop_sound zero par tags set q tq r hs ht e = cc
  loop_sound (suc fuel) par tags set q tq r hs ht e = elim (List-cases (elems tq)) [
    | inl none' ↦ let same : set ≡ r = cc (loop_done fuel par set q tq none') in rw (← same) hs
    | inr (x, xs, more) ↦
        let hr = rows_reached par tags tq ht in
        loop_sound fuel par tags (add_all S (fst_where (elems tq) par) set) (union q tq)
          (fresh S (union q tq) (fst_where (elems tq) par) new) r (set_reached par tags _ set hs hr)
          (fresh_reached par tags _ (union q tq) hr)
          (sym (loop_more fuel par set q tq x xs more) ∙ e)
  ]

  -- what the loop has queried and will query is in the set, and so are the parents of the former
  record IsOpen (par : Table) (set q tq : Set) : Type 0 where
    queried : (x : ℕ) → mem x (elems q) ≡ true → mem x (elems set) ≡ true
    pending : (x : ℕ) → mem x (elems tq) ≡ true → mem x (elems set) ≡ true
    covered : (x : ℕ) → mem x (elems set) ≡ true → (mem x (elems q) || mem x (elems tq)) ≡ true
    closed : (p c : ℕ) → has_row p c par ≡ true → mem c (elems q) ≡ true → mem p (elems set) ≡ true

  round-IsOpen :
      (par : Table) (set q tq : Set)
      → IsOpen par set q tq
      → IsOpen par
          (add_all S (fst_where (elems tq) par) set)
          (union q tq)
          (fresh S (union q tq) (fst_where (elems tq) par) new)
  round-IsOpen par set q tq o = record {
    queried = λ x m. ground (
      arith,
      mem-add_all S x (fst_where (elems tq) par) set,
      mem_union x q tq,
      o.queried x,
      o.pending x,
    );
    pending = λ x m. ground (
      arith,
      mem-add_all S x (fst_where (elems tq) par) set,
      mem-fresh_new x (union q tq) (fst_where (elems tq) par),
    );
    covered = λ x m. ground (
      arith,
      mem-add_all S x (fst_where (elems tq) par) set,
      mem_union x q tq,
      mem-fresh_new x (union q tq) (fst_where (elems tq) par),
      o.covered x,
    );
    closed = λ p c row m. ground (
      arith,
      mem-add_all S p (fst_where (elems tq) par) set,
      mem_union c q tq,
      o.closed p c row,
      mem-fst_where p c (elems tq) par row,
    );
  }

  loop-IsClosed :
      (fuel : ℕ) (par : Table) (set q tq r : Set)
      → IsOpen par set q tq
      → parents_loop S fuel par set q tq ≡ some r
      → ((x : ℕ) → mem x (elems set) ≡ true → mem x (elems r) ≡ true) × IsClosed par (elems r)
  unfolding parents_loop
  loop-IsClosed zero par set q tq r o e = absurd (cc)
  loop-IsClosed (suc fuel) par set q tq r o e = elim (List-cases (elems tq)) [
    | inl none' ↦
        let same : set ≡ r = cc (loop_done fuel par set q tq none') in
        rw (← same) (
          λ x m. m,
          λ p c row m. o.closed p c row (ground (arith, o.covered c m, ap (mem c) none')),
        )
    | inr (x, xs, more) ↦
        let (grows, closed) =
          loop-IsClosed fuel par (add_all S (fst_where (elems tq) par) set) (union q tq)
            (fresh S (union q tq) (fst_where (elems tq) par) new) r (round-IsOpen par set q tq o)
            (sym (loop_more fuel par set q tq x xs more) ∙ e) in
        (λ y m. grows y (ground (arith, mem-add_all S y (fst_where (elems tq) par) set)), closed)
  ]

  start-IsOpen : (par : Table) (set : Set) → IsOpen par set new set
  start-IsOpen par set = record {
    queried = λ x m. ground (arith, ap (mem x) elems_new);
    pending = λ x m. m;
    covered = λ x m. ground arith;
    closed = λ p c row m. ground (arith, ap (mem c) elems_new);
  }

  -- the first round queries the given tags, which need not be parents of anything
  parents_total : (par : Table) (set : Set) → (r : Set) × (parents S par set ≡ some r)
  unfolding parents
  parents_total par set = elim (List-cases (elems set)) [
    | inl e ↦ (set, ground (arith, loop_done (length par + 1) par set new set e))
    | inr (x, xs, e) ↦
        let (r, p) =
          loop_total (suc (length par)) par (add_all S (fst_where (elems set) par) set)
            (union new set) (fresh S (union new set) (fst_where (elems set) par) new)
            (omega (arith, unqueried-le-length (elems (union new set)) par))
            (round-IsFresh par new set) in
        (r, ground (arith, loop_more (suc (length par)) par set new set x xs e, p))
  ]

  -- Whatever the table of parents holds, cycles included, `parents` returns a set, and that set holds
  -- exactly the tags that are in the given set or are ancestors of one of its members.
  pub parents_exact :
      (par : Table) (set : Set)
      → (r : Set) × (parents S par set ≡ some r)
        × ((x : ℕ) → (mem x (elems r) ≡ true) ↔ Ancestry par (elems set) x)
  unfolding parents
  parents_exact par set =
      let (r, e) = parents_total par set in
      let (grows, closed) = loop-IsClosed _ par set new set r (start-IsOpen par set) e in
      let back = λ (x : ℕ) (a : Ancestry par (elems set) x).
        reached par (elems set) (elems r) grows closed a in
      (
        r,
        e,
        λ x. (
          loop_sound _ par (elems set) set new set r (λ y m. start m) (λ y m. start m) e x,
          back x,
        ),
      )
