-- ===== src/Paginator/Bounds.antt =====
-- Where the buttons of handlers/paginator/paginator.go lead to.
use pbooru.Prelude.{
  All, Bool, Bool-cases, List, [], ap, arith, if◌then◌else◌, inl, inr, keep, leb, length,
  length-append, ltb, refl, suc, true, zero, ℕ, ◌&&◌, ◌++◌, ◌+◌, ◌-◌, ◌∷◌, ◌≡◌, ◌≤◌,
}
use pbooru.Paginator.{Paginator, Page, limits, numbers, paginate, min, max, backward, forward}

-- a page of the list, with some buttons
abbrev pub IsValid : Paginator → Type 0
IsValid p = (1 ≤ p.current) × (p.current ≤ p.last) × (2 ≤ p.plength)

limits-bounds :
    (p : Paginator)
    → IsValid p
    → (1 ≤ (limits p).0)
      × ((limits p).0 ≤ p.current)
      × (p.current ≤ (limits p).1)
      × ((limits p).1 ≤ p.last)
      × ((limits p).1 + 1 ≤ (limits p).0 + p.plength)
unfolding limits min max
limits-bounds p v = ground arith

abbrev LeadsTo : ℕ → Page → Type 0
LeadsTo last b = (1 ≤ b.href) × (b.href ≤ last)

numbers-All :
    (last current rounds start : ℕ)
    → 1 ≤ start
    → start + rounds ≤ last + 1
    → All (LeadsTo last) (numbers current rounds start)
unfolding numbers
numbers-All last current zero start lo hi = tt
numbers-All last current (suc rounds) start lo hi =
    ((lo, omega arith), numbers-All last current rounds (start + 1) (omega arith) (omega arith))

length-numbers : (current rounds start : ℕ) → length (numbers current rounds start) ≡ rounds
unfolding numbers
length-numbers current zero start = refl
length-numbers current (suc rounds) start = ap suc (length-numbers current rounds (start + 1))

keep-numbers :
    (current rounds start : ℕ)
    → length (keep (λ (b : Page). b.is_current) (numbers current rounds start))
      ≡ (if leb start current && ltb current (start + rounds) then 1 else 0)
unfolding numbers
keep-numbers current zero start = ground arith
keep-numbers current (suc rounds) start = ground (arith, keep-numbers current rounds (start + 1))

All-append {ℓ κ} :
    {A : Type ℓ} (P : A → Type κ) (xs ys : List A) → All P xs → All P ys → All P (xs ++ ys)
All-append P [] ys a b = b
All-append P (x ∷ xs) ys (p, a) b = (p, All-append P xs ys a b)

keep-append {ℓ} :
    {A : Type ℓ} (test : A → Bool) (xs ys : List A)
    → length (keep test (xs ++ ys)) ≡ length (keep test xs) + length (keep test ys)
keep-append test [] ys = omega arith
keep-append test (x ∷ xs) ys = ground (arith, keep-append test xs ys)

backward-bounds :
    (p : Paginator)
    → IsValid p
    → All (LeadsTo p.last) (backward p)
      × (length (keep (λ (b : Page). b.is_current) (backward p)) ≡ 0)
      × (length (backward p) ≤ 2)
unfolding backward
backward-bounds p v = elim (Bool-cases (ltb 1 p.current)) [
  | inl e ↦
      rw e
        (((ground arith, ground arith), ((ground (arith, e), ground arith), tt)), refl, omega arith)
  | inr e ↦ rw e (tt, refl, omega arith)
]

forward-bounds :
    (p : Paginator)
    → IsValid p
    → All (LeadsTo p.last) (forward p)
      × (length (keep (λ (b : Page). b.is_current) (forward p)) ≡ 0)
      × (length (forward p) ≤ 2)
unfolding forward
forward-bounds p v = elim (Bool-cases (ltb p.current p.last)) [
  | inl e ↦
      rw e
        (((omega arith, ground (arith, e)), ((ground arith, omega arith), tt)), refl, omega arith)
  | inr e ↦ rw e (tt, refl, omega arith)
]

-- On a page of the list, and with two number buttons at least, every button leads to a page between
-- the first and the last, exactly one of them is marked as the current page, and there are no more
-- than the number buttons and four others.
pub paginate_bounds :
    (p : Paginator)
    → IsValid p
    → All (λ b. (1 ≤ b.href) × (b.href ≤ p.last)) (paginate p)
      × (length (keep (λ (b : Page). b.is_current) (paginate p)) ≡ 1)
      × (length (paginate p) ≤ p.plength + 4)
paginate_bounds p v =
    let rounds = (limits p).1 + 1 - (limits p).0 in
    let start = (limits p).0 in
    let middle = numbers p.current rounds start in
    let (lo, at, up, hi, few) = limits-bounds p v in
    let (b1, b2, b3) = backward-bounds p v in
    let (f1, f2, f3) = forward-bounds p v in
    let test = λ (b : Page). b.is_current in
    let one : (leb start p.current && ltb p.current (start + rounds)) ≡ true =
      ground (arith, lo, at, up) in
    unfold paginate in
    (
      All-append (LeadsTo p.last) (backward p) (middle ++ forward p) b1 (
          All-append (LeadsTo p.last) middle (forward p)
            (numbers-All p.last p.current rounds start lo (omega arith)) f1),
      ground (
        arith,
        keep-append test (backward p) (middle ++ forward p),
        keep-append test middle (forward p),
        b2,
        f2,
        keep-numbers p.current rounds start,
        one,
      ),
      omega (
        arith,
        length-append (backward p) (middle ++ forward p),
        length-append middle (forward p),
        length-numbers p.current rounds start,
      ),
    )
