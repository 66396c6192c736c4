-- ===== src/Posts/Sizes.antt =====
-- `SizePretty` of DataManager/posts.go: the unit in which the size of a file is shown.
-- `for n := p.Size / unit; n >= unit; n /= unit`, with the rounds left; `none` if they run out
use pbooru.Prelude.{
  Bool-cases, Option, arith, if◌then◌else◌, inl, inr, leb, none, some, suc, zero, ℕ, ◌*◌, ◌+◌, ◌/◌,
  ◌<◌, ◌^◌, ◌≡◌, ◌≤◌,
}

unfoldable pub size_loop : ℕ → ℕ → ℕ → ℕ → Option (ℕ × ℕ)
size_loop zero n div exp = none
size_loop (suc rounds) n div exp =
    let rest = size_loop rounds (n / 1000) (div * 1000) (exp + 1) in
    if leb 1000 n then rest else some (div, exp)

-- the divisor and the index into "KMGTPE" for a size of 1000 bytes at least
unfoldable pub size_unit : ℕ → Option (ℕ × ℕ)
unfolding size_loop
size_unit size = size_loop 6 (size / 1000) 1000 0

-- For every size that an int64 holds, from 1000 bytes on, the loop ends within six rounds, the index is
-- within the six letters, and the size is from 1 up to 1000 of the unit: no overflow, no index error.
pub size_unit_bounds :
    (size : ℕ)
    → 1000 ≤ size
    → size < 2 ^ 63
    → (div : ℕ) × (exp : ℕ) × (size_unit size ≡ some (div, exp))
      × (exp < 6)
      × (div ≤ size)
      × (size < 1000 * div)
unfolding size_unit
size_unit_bounds size lo hi = elim (Bool-cases (leb 1000 (size / 1000))) [
  | inl e0 ↦ elim (Bool-cases (leb 1000 (size / 1000 / 1000))) [
    | inl e1 ↦ elim (Bool-cases (leb 1000 (size / 1000 / 1000 / 1000))) [
      | inl e2 ↦ elim (Bool-cases (leb 1000 (size / 1000 / 1000 / 1000 / 1000))) [
        | inl e3 ↦ elim (Bool-cases (leb 1000 (size / 1000 / 1000 / 1000 / 1000 / 1000))) [
          | inl e4 ↦ elim (Bool-cases (leb 1000 (size / 1000 / 1000 / 1000 / 1000 / 1000 / 1000))) [
            | inl e5 ↦ absurd (ground (arith, e0, e1, e2, e3, e4, e5))
            | inr e5 ↦ (
              1000000000000000000,
              5,
              ground (arith, e0, e1, e2, e3, e4, e5),
              omega arith,
              ground (arith, e0, e1, e2, e3, e4, e5),
              ground (arith, e0, e1, e2, e3, e4, e5),
            )
          ]
          | inr e4 ↦ (
            1000000000000000,
            4,
            ground (arith, e0, e1, e2, e3, e4),
            omega arith,
            ground (arith, e0, e1, e2, e3, e4),
            ground (arith, e0, e1, e2, e3, e4),
          )
        ]
        | inr e3 ↦ (
          1000000000000,
          3,
          ground (arith, e0, e1, e2, e3),
          omega arith,
          ground (arith, e0, e1, e2, e3),
          ground (arith, e0, e1, e2, e3),
        )
      ]
      | inr e2 ↦ (
        1000000000,
        2,
        ground (arith, e0, e1, e2),
        omega arith,
        ground (arith, e0, e1, e2),
        ground (arith, e0, e1, e2),
      )
    ]
    | inr e1 ↦ (
      1000000,
      1,
      ground (arith, e0, e1),
      omega arith,
      ground (arith, e0, e1),
      ground (arith, e0, e1),
    )
  ]
  | inr e0 ↦ (1000, 0, ground (arith, e0), omega arith, ground (arith, e0), ground (arith, e0))
]
