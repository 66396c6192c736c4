-- ===== src/Tags/Family/Ancestors.antt =====
-- The ancestors of tags, and how far the rounds of `parents` have come.
use pbooru.Prelude.{
  ℕ, ◌+◌, ◌≤◌, ◌<◌, ◌≡◌, ap, true, false, ◌&&◌, List, [], ◌∷◌, arith, length, mem, ◌==◌,
  if◌then◌else◌, ==_iff, Bool-cases, inl, inr,
}
use pbooru.Database.{Table, has_row, fst_where}

-- the tag is in the list, or is a parent of a tag that is reached
pub data Ancestry (par : Table) (tags : List ℕ) : ℕ → Type 0 where
  start : {x : ℕ} → mem x tags ≡ true → Ancestry par tags x
  up : {p c : ℕ} → Ancestry par tags c → has_row p c par ≡ true → Ancestry par tags p

pub mem-fst_where :
    (p c : ℕ) (xs : List ℕ) (t : Table)
    → has_row p c t ≡ true
    → mem c xs ≡ true
    → mem p (fst_where xs t) ≡ true
unfolding fst_where
mem-fst_where p c xs [] h k = cc
mem-fst_where p c xs ((x, y) ∷ t) h k = elim (Bool-cases (p == x && c == y)) [
  | inl e ↦ ground arith
  | inr e ↦ ground (arith, mem-fst_where p c xs t)
]

pub fst_where_sound :
    (p : ℕ) (xs : List ℕ) (t : Table)
    → mem p (fst_where xs t) ≡ true
    → (c : ℕ) × (has_row p c t ≡ true) × (mem c xs ≡ true)
unfolding fst_where
fst_where_sound p xs [] h = cc
fst_where_sound p xs ((x, y) ∷ t) h = elim (Bool-cases (mem y xs && p == x)) [
  | inl e ↦ (y, ground arith, ground arith)
  | inr e ↦ let (c, row, m) = fst_where_sound p xs t (ground arith) in (c, ground arith, m)
]

-- the rows whose parent was not queried yet
pub unqueried : List ℕ → Table → ℕ
unqueried q [] = 0
unqueried q ((x, y) ∷ t) = unqueried q t + (if mem x q then 0 else 1)

pub unqueried-le-length : (q : List ℕ) (t : Table) → unqueried q t ≤ length t
unfolding unqueried
unqueried-le-length q [] = omega arith
unqueried-le-length q ((x, y) ∷ t) = ground (arith, unqueried-le-length q t)

unqueried_mono :
    (q q' : List ℕ) (t : Table)
    → ((x : ℕ) → mem x q ≡ true → mem x q' ≡ true)
    → unqueried q' t ≤ unqueried q t
unfolding unqueried
unqueried_mono q q' [] h = omega arith
unqueried_mono q q' ((x, y) ∷ t) h = ground (arith, unqueried_mono q q' t h, h x)

pub unqueried_strict :
    (p c : ℕ) (q q' : List ℕ) (t : Table)
    → ((x : ℕ) → mem x q ≡ true → mem x q' ≡ true)
    → has_row p c t ≡ true
    → mem p q ≡ false
    → mem p q' ≡ true
    → unqueried q' t < unqueried q t
unfolding unqueried
unqueried_strict p c q q' [] h r m m' = cc
unqueried_strict p c q q' ((x, y) ∷ t) h r m m' = elim (Bool-cases (p == x)) [
  | inl e ↦
      let e' : p ≡ x = (==_iff p x).0 e in
      ground (arith, unqueried_mono q q' t h, ap (λ z. mem z q) e', ap (λ z. mem z q') e')
  | inr e ↦ ground (arith, unqueried_strict p c q q' t h, h x)
]

abbrev pub IsClosed : Table → List ℕ → Type 0
IsClosed par tags = (p c : ℕ) → has_row p c par ≡ true → mem c tags ≡ true → mem p tags ≡ true

-- a closed list that holds the tags holds all that is reached from them
pub reached :
    (par : Table) (tags xs : List ℕ)
    → ((x : ℕ) → mem x tags ≡ true → mem x xs ≡ true)
    → IsClosed par xs
    → {x : ℕ} → Ancestry par tags x
    → mem x xs ≡ true
reached par tags xs g c (start m) = g _ m
reached par tags xs g c (up {p = p} {c = q} a row) = c p q row (reached par tags xs g c a)
