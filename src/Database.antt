-- ===== src/Database.antt =====
-- The tables of the PostgreSQL schema (DataManager/migrator/sql) that the modelled statements touch,
-- and the statements' clauses as functions: a table of two columns is a list of rows.
use pbooru.Prelude.{
  ℕ, ◌≡◌, refl, Bool, true, false, ◌&&◌, ◌||◌, List, [], ◌∷◌, ◌++◌, arith, mem, keep, ◌==◌,
  if◌then◌else◌, Bool-cases, inl, inr, ==_iff,
}

abbrev pub Table : Type 0
Table = List (ℕ × ℕ)

abbrev pub fst : ℕ × ℕ → ℕ
fst (a, b) = a

abbrev pub snd : ℕ × ℕ → ℕ
snd (a, b) = b

-- the row (a, b) is in the table
abbrev pub has_row : ℕ → ℕ → Table → Bool
has_row a b [] = false
has_row a b ((x, y) ∷ t) = a == x && b == y || has_row a b t

-- SELECT snd WHERE fst IN (xs), SELECT fst WHERE snd IN (xs)
unfoldable pub snd_where : List ℕ → Table → List ℕ
snd_where xs [] = []
snd_where xs ((x, y) ∷ t) = let rest = snd_where xs t in if mem x xs then y ∷ rest else rest

unfoldable pub fst_where : List ℕ → Table → List ℕ
fst_where xs [] = []
fst_where xs ((x, y) ∷ t) = let rest = fst_where xs t in if mem y xs then x ∷ rest else rest

pub mem-snd_where : (p t : ℕ) (ptm : Table) → mem t (snd_where (p ∷ []) ptm) ≡ has_row p t ptm
unfolding snd_where
mem-snd_where p t [] = refl
mem-snd_where p t ((x, k) ∷ ptm) =
    ground (arith, mem-snd_where p t ptm, ==_iff x p, ==_iff p x, ==_iff t k)

-- INSERT … ON CONFLICT DO NOTHING, under a key on both columns
unfoldable pub insert_row : ℕ → ℕ → Table → Table
insert_row a b t = if has_row a b t then t else (a, b) ∷ t

unfoldable pub insert_rows : Table → Table → Table
insert_rows [] t = t
insert_rows ((a, b) ∷ rows) t = insert_rows rows (insert_row a b t)

pub has_row-keep :
    (p : ℕ × ℕ → Bool) (a b : ℕ) (t : Table) → has_row a b (keep p t) ≡ (has_row a b t && p (a, b))
has_row-keep p a b [] = refl
has_row-keep p a b ((x, y) ∷ t) = ground (arith, has_row-keep p a b t)

pub has_row-append :
    (a b : ℕ) (t u : Table) → has_row a b (t ++ u) ≡ (has_row a b t || has_row a b u)
has_row-append a b [] u = refl
has_row-append a b ((x, y) ∷ t) u = ground (arith, has_row-append a b t u)

pub has_row-insert_row :
    (a b x y : ℕ) (t : Table) → has_row a b (insert_row x y t) ≡ (a == x && b == y || has_row a b t)
unfolding insert_row
has_row-insert_row a b x y t = ground arith

pub has_row-insert_rows :
    (a b : ℕ) (rows t : Table)
    → has_row a b (insert_rows rows t) ≡ (has_row a b rows || has_row a b t)
unfolding insert_rows
has_row-insert_rows a b [] t = refl
has_row-insert_rows a b ((x, y) ∷ rows) t =
    ground (arith, has_row-insert_rows a b rows (insert_row x y t), has_row-insert_row a b x y t)

pub has_row-fst_where :
    (a b : ℕ) (xs : List ℕ) (t : Table)
    → has_row a b t ≡ true
    → mem b xs ≡ true
    → mem a (fst_where xs t) ≡ true
unfolding fst_where
has_row-fst_where a b xs [] h m = cc
has_row-fst_where a b xs ((x, y) ∷ t) h m = elim (Bool-cases (a == x && b == y)) [
  | inl e ↦ ground arith
  | inr e ↦ ground (arith, has_row-fst_where a b xs t)
]

-- all pairs, as `SELECT a, UNNEST(ARRAY[…])` makes them
unfoldable pub pair_with : ℕ → List ℕ → Table
pair_with a [] = []
pair_with a (b ∷ bs) = (a, b) ∷ pair_with a bs

unfoldable pub cross : List ℕ → List ℕ → Table
cross [] bs = []
cross (a ∷ as') bs = pair_with a bs ++ cross as' bs

has_row-pair_with : (a b x : ℕ) (bs : List ℕ) → has_row a b (pair_with x bs) ≡ (a == x && mem b bs)
unfolding pair_with
has_row-pair_with a b x [] = ground arith
has_row-pair_with a b x (y ∷ bs) = ground (arith, has_row-pair_with a b x bs)

pub has_row-cross :
    (a b : ℕ) (as' bs : List ℕ) → has_row a b (cross as' bs) ≡ (mem a as' && mem b bs)
unfolding cross
has_row-cross a b [] bs = refl
has_row-cross a b (x ∷ as') bs = ground (
  arith,
  has_row-append a b (pair_with x bs) (cross as' bs),
  has_row-pair_with a b x bs,
  has_row-cross a b as' bs,
)

-- the first column holds the value: the test of a primary key
unfoldable pub has_key : ℕ → Table → Bool
has_key a [] = false
has_key a ((x, y) ∷ t) = a == x || has_key a t
