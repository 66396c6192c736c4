-- ===== src/Text.antt =====
-- Text as the list of its code points, with the functions of Go's `strings` and `unicode` that the
-- program calls.
use pbooru.Prelude.{
  ℕ, ◌≡◌, refl, ◌∙◌, ap, Bool, true, false, ◌&&◌, ◌||◌, ◌↔◌, List, [], ◌∷◌, ◌++◌, arith, ◌==◌,
  ==_iff, if◌then◌else◌, leb, is_empty, Bool-cases, inl, inr,
}
use Prim.Native.Char.{code}
use Prim.Native.String.{String}

abbrev pub Text : Type 0
Text = List ℕ

-- the code points of a literal
abbrev pub codes : String → Text
codes String.[] = []
codes (String.◌∷◌ c s) = code c ∷ codes s

-- a == b
unfoldable pub text_eq : Text → Text → Bool
text_eq [] [] = true
text_eq [] (b ∷ bs) = false
text_eq (a ∷ as') [] = false
text_eq (a ∷ as') (b ∷ bs) = a == b && text_eq as' bs

pub text_eq_iff : (a b : Text) → (text_eq a b ≡ true) ↔ (a ≡ b)
unfolding text_eq
text_eq_iff [] [] = ground arith
text_eq_iff [] (b ∷ bs) = ground arith
text_eq_iff (a ∷ as') [] = ground arith
text_eq_iff (a ∷ as') (b ∷ bs) = ground (arith, text_eq_iff as' bs, ==_iff a b)

pub text_eq_refl : (a : Text) → text_eq a a ≡ true
text_eq_refl a = (text_eq_iff a a).1 refl

-- unicode.IsSpace
unfoldable pub is_space : ℕ → Bool
is_space c =
    leb 9 c && leb c 13
    || c == 32
    || c == 0x85
    || c == 0xa0
    || c == 0x1680
    || leb 0x2000 c && leb c 0x200a
    || c == 0x2028
    || c == 0x2029
    || c == 0x202f
    || c == 0x205f
    || c == 0x3000

unfoldable pub trim_left : Text → Text
trim_left [] = []
trim_left (c ∷ s) = let rest = trim_left s in if is_space c then rest else c ∷ s

unfoldable pub trim_right : Text → Text
trim_right [] = []
trim_right (c ∷ s) = let rest = trim_right s in if is_empty rest && is_space c then [] else c ∷ rest

-- strings.TrimSpace
unfoldable pub trim_space : Text → Text
unfolding trim_left trim_right is_space
trim_space s = trim_right (trim_left s)

-- a text that starts and ends with no space
unfoldable pub is_trimmed : Text → Bool
unfolding trim_space text_eq
is_trimmed s = text_eq (trim_left s) s && text_eq (trim_right s) s

pub trim_space-is_trimmed : (s : Text) → is_trimmed s ≡ true → trim_space s ≡ s
unfolding is_trimmed
trim_space-is_trimmed s h =
    let l : trim_left s ≡ s = (text_eq_iff (trim_left s) s).0 (ground arith) in
    ap trim_right l ∙ (text_eq_iff (trim_right s) s).0 (ground arith)

trim_right-space : (s : Text) (c : ℕ) → is_space c ≡ true → trim_right (s ++ c ∷ []) ≡ trim_right s
unfolding trim_right
trim_right-space [] c h = ground arith
trim_right-space (x ∷ s) c h =
    ap (λ (r : Text). if is_empty r && is_space x then [] else x ∷ r) (trim_right-space s c h)

trim_left-append : (s t r : Text) (x : ℕ) → trim_left s ≡ x ∷ r → trim_left (s ++ t) ≡ x ∷ (r ++ t)
unfolding trim_left
trim_left-append [] t r x h = cc
trim_left-append (c ∷ s) t r x h = elim (Bool-cases (is_space c)) [
  | inl e ↦ ground (arith, trim_left-append s t r x)
  | inr e ↦ ground arith
]

-- A space behind a trimmed text is trimmed away.
pub trim_space-snoc :
    (s : Text) (c : ℕ) → is_trimmed s ≡ true → is_space c ≡ true → trim_space (s ++ c ∷ []) ≡ s
unfolding is_trimmed
trim_space-snoc [] c h k = unfold trim_space in ground arith
trim_space-snoc (x ∷ s) c h k =
    let l : trim_left (x ∷ s) ≡ x ∷ s =
      (text_eq_iff (trim_left (x ∷ s)) (x ∷ s)).0 (ground arith) in
    let r : trim_right (x ∷ s) ≡ x ∷ s =
      (text_eq_iff (trim_right (x ∷ s)) (x ∷ s)).0 (ground arith) in
    ap trim_right (trim_left-append (x ∷ s) (c ∷ []) s x l) ∙ trim_right-space (x ∷ s) c k ∙ r
