-- ===== src/Tags/Alias/Removal.antt =====
-- What `UnaliasTags` does to the alias table.
use pbooru.Prelude.{
  ℕ, ◌≡◌, refl, sym, ◌∙◌, ap, Bool, false, not, ◌&&◌, List, [], ◌∷◌, some, arith, mem, keep, ◌==◌,
  if◌then◌else◌, Bool-cases, inl, inr, ==_iff,
}
use pbooru.Database.{Table, fst, snd, has_key}
use pbooru.Tags.Error.{ok, no_rows, >>=-eq-ok, or_fail, or_fail-eq-ok}
use pbooru.Tags.Family.{aliased_to}
use pbooru.Tags.Alias.{alias_of, log_under, unalias_tags}
use pbooru.Tags.Alias.Resolution.{aliased_to-no_key}

-- the primary key: one row for a tag
abbrev pub IsKeyed : Table → Type 0
IsKeyed [] = Unit {0}
IsKeyed ((a, b) ∷ t) = (has_key a t ≡ false) × IsKeyed t

abbrev other_row : ℕ → ℕ → ℕ × ℕ → Bool
other_row f to row = not (fst row == f && snd row == to)

has_key-keep :
    (x f to : ℕ) (t : Table) → has_key x t ≡ false → has_key x (keep (other_row f to) t) ≡ false
unfolding has_key
has_key-keep x f to [] h = refl
has_key-keep x f to ((a, b) ∷ t) h = ground (arith, has_key-keep x f to t)

keep-IsKeyed : (f to : ℕ) (t : Table) → IsKeyed t → IsKeyed (keep (other_row f to) t)
keep-IsKeyed f to [] k = tt
keep-IsKeyed f to ((a, b) ∷ t) (n, k) =
    ground (arith, keep-IsKeyed f to t k, has_key-keep a f to t n)

keep_no_key : (f to : ℕ) (t : Table) → has_key f t ≡ false → keep (other_row f to) t ≡ t
unfolding has_key
keep_no_key f to [] h = refl
keep_no_key f to ((a, b) ∷ t) h = ground (arith, keep_no_key f to t)

aliased_to-keep :
    (x f to : ℕ) (t : Table)
    → IsKeyed t
    → alias_of f t ≡ some to
    → aliased_to (keep (other_row f to) t) x ≡ (if x == f then x else aliased_to t x)
unfolding aliased_to alias_of
aliased_to-keep x f to [] k h = cc
aliased_to-keep x f to ((a, b) ∷ t) (n, k) h = elim (Bool-cases (a == f)) [
  | inl e ↦
      let same : a ≡ f = (==_iff a f).0 e in
      let gone : has_key f t ≡ false = ap (λ z. has_key z t) (sym same) ∙ n in
      ground (
        arith,
        keep_no_key f to t gone,
        aliased_to-no_key t x,
        ==_iff x f,
        λ (e' : x ≡ f). ap (λ z. has_key z t) e',
        gone,
        ==_iff a x,
      )
  | inr e ↦ ground (arith, aliased_to-keep x f to t k)
]

-- If no tag has two rows in the alias table, a successful `UnaliasTags` makes each of its tags
-- resolve to itself, and leaves what every other tag resolves to.
pub unalias_tags-aliased_to :
    (from : List ℕ) (alias rows : Table) (lun lun' : List (ℕ × List ℕ))
    → IsKeyed alias
    → unalias_tags from alias lun ≡ ok (rows, lun')
    → (x : ℕ) → aliased_to rows x ≡ (if mem x from then x else aliased_to alias x)
unfolding unalias_tags
unalias_tags-aliased_to [] alias rows lun lun' k h x = cc
unalias_tags-aliased_to (f ∷ from) alias rows lun lun' k h x =
    let (to, e, h') = >>=-eq-ok (or_fail (alias_of f alias) no_rows) _ h in
    ground (
      arith,
      unalias_tags-aliased_to from (keep (other_row f to) alias) rows (log_under to f lun) lun'
          (keep-IsKeyed f to alias k) h' x,
      aliased_to-keep x f to alias k (or_fail-eq-ok (alias_of f alias) no_rows e),
    )
