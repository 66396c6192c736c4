-- ===== src/Paginator.antt =====
-- handlers/paginator/paginator.go: the buttons under a list of results. A link is the number of the
-- page that it leads to.
pub mod Bounds
mod Examples
use pbooru.Prelude.{
  Bool, List, [], false, if◌then◌else◌, ltb, suc, zero, ℕ, ◌++◌, ◌+◌, ◌-◌, ◌==◌, ◌∷◌, ◌/◌,
}

pub record Paginator : Type 0 where
  pub current : ℕ
  pub last : ℕ
  pub plength : ℕ

pub data Label : Type 0 where
  first previous next final : Label
  number : ℕ → Label

pub record Page : Type 0 where
  pub is_current : Bool
  pub val : Label
  pub href : ℕ

-- `New`, with the ceiling of the quotient
unfoldable pub make : ℕ → ℕ → ℕ → ℕ → Paginator
make current total per_page buttons = record {
  current = current;
  last = (total + (per_page - 1)) / per_page;
  plength = buttons;
}

unfoldable pub min : ℕ → ℕ → ℕ
min a b = if ltb a b then a else b

unfoldable pub max : ℕ → ℕ → ℕ
max a b = if ltb a b then b else a

-- start and end; Go's `int` may be negative where ℕ stops at 0, and `max 1` then takes 1 in both
unfoldable pub limits : Paginator → ℕ × ℕ
unfolding min max
limits p =
    let lendiv = p.plength / 2 in
    if ltb p.current lendiv
    then (1, min p.plength p.last)
    else (if ltb p.last (p.current + lendiv)
        then (max 1 (p.last + 1 - p.plength), p.last)
        else (max 1 (p.current + 1 - lendiv), p.current + lendiv))

-- for current := start; current <= end; current++, with the rounds left
unfoldable pub numbers : ℕ → ℕ → ℕ → List Page
numbers current zero start = []
numbers current (suc rounds) start =
    record { is_current = start == current; val = number start; href = start }
    ∷ numbers current rounds (start + 1)

unfoldable pub backward : Paginator → List Page
backward p =
    if ltb 1 p.current
    then record { is_current = false; val = first; href = 1 }
      ∷ (record { is_current = false; val = previous; href = p.current - 1 } ∷ [])
    else []

unfoldable pub forward : Paginator → List Page
forward p =
    if ltb p.current p.last
    then record { is_current = false; val = next; href = p.current + 1 }
      ∷ (record { is_current = false; val = final; href = p.last } ∷ [])
    else []

unfoldable pub paginate : Paginator → List Page
unfolding limits numbers backward forward
paginate p =
    let (start, end) = limits p in
    backward p ++ (numbers p.current (end + 1 - start) start ++ forward p)
