-- ===== src/Tags/TextSets.antt =====
-- The sorted sets of github.com/kycklingar/set again, this time of `tsTag` (DataManager/tag_set.go),
-- whose `Less` compares the texts of `Tag.String`: two tags that print alike are one element, of which
-- the set keeps one tag. The package is not in the repository: an interface with the documented meaning
-- of its operations. `diff` and `intersection` keep tags of their first argument, on which
-- `AlterPostTags` relies for the ids.
use pbooru.Text.{Text, text_eq, text_eq_iff}
use pbooru.Tags.Syntax.{Tag, to_string}
use mathlib.Core.Path.{subst}
use pbooru.Prelude.{
  All, All-keep, Bool, Bool-cases, List, [], ap, arith, false, if◌then◌else◌, inl, inr, keep, not,
  refl, sym, true, ◌&&◌, ◌||◌, ◌∷◌, ◌≡◌,
}

-- a tag of the list has the text
abbrev pub has_text : Text → List Tag → Bool
has_text k [] = false
has_text k (t ∷ ts) = text_eq k (to_string t) || has_text k ts

-- no text stands twice in the list
abbrev pub HasDistinctTexts : List Tag → Type 0
HasDistinctTexts [] = Unit {0}
HasDistinctTexts (t ∷ ts) = (has_text (to_string t) ts ≡ false) × HasDistinctTexts ts

pub record TextSets : Type 1 where
  pub Set : Type 0
  -- the slice that a `range` over the set goes through
  pub elems : Set → List Tag
  pub new : Set
  pub add : Tag → Set → Set
  pub diff : Set → Set → Set
  pub intersection : Set → Set → Set
  pub elems_new : elems new ≡ []
  pub distinct : (s : Set) → HasDistinctTexts (elems s)
  pub has_add :
      (k : Text) (t : Tag) (s : Set)
      → has_text k (elems (add t s)) ≡ (text_eq k (to_string t) || has_text k (elems s))
  pub has_diff :
      (k : Text) (s t : Set)
      → has_text k (elems (diff s t)) ≡ (has_text k (elems s) && not (has_text k (elems t)))
  pub has_intersection :
      (k : Text) (s t : Set)
      → has_text k (elems (intersection s t)) ≡ (has_text k (elems s) && has_text k (elems t))
  pub all_add :
      (P : Tag → Type 0) (t : Tag) (s : Set) → P t → All P (elems s) → All P (elems (add t s))
  pub all_diff : (P : Tag → Type 0) (s t : Set) → All P (elems s) → All P (elems (diff s t))
  pub all_intersection :
      (P : Tag → Type 0) (s t : Set) → All P (elems s) → All P (elems (intersection s t))

module _ (T : TextSets) where
  open T use {Set, elems, new, elems_new, add, has_add, all_add}

  -- `for _, v := range ts { s.Set(v) }`
  unfoldable pub collect : List Tag → Set → Set
  collect [] s = s
  collect (t ∷ ts) s = collect ts (add t s)

  has_text-collect :
      (k : Text) (ts : List Tag) (s : Set)
      → has_text k (elems (collect ts s)) ≡ (has_text k ts || has_text k (elems s))
  unfolding collect
  has_text-collect k [] s = refl
  has_text-collect k (t ∷ ts) s = ground (arith, has_text-collect k ts (add t s), has_add k t s)

  All-collect :
      (P : Tag → Type 0) (ts : List Tag) (s : Set)
      → All P ts
      → All P (elems s)
      → All P (elems (collect ts s))
  unfolding collect
  All-collect P [] s a b = b
  All-collect P (t ∷ ts) s (h, a) b = All-collect P ts (add t s) a (all_add P t s h b)

  pub has_text-collect_new :
      (k : Text) (ts : List Tag) → has_text k (elems (collect ts new)) ≡ has_text k ts
  has_text-collect_new k ts = ground (arith, has_text-collect k ts new, ap (has_text k) elems_new)

  pub All-collect_new :
      (P : Tag → Type 0) (ts : List Tag) → All P ts → All P (elems (collect ts new))
  All-collect_new P ts a = All-collect P ts new a (subst (All P) (sym elems_new) tt)

-- The interface can be met: sets as lists without repetition, in the order of insertion.
abbrev pub DistinctTags : Type 0
DistinctTags = (ts : List Tag) × HasDistinctTexts ts

pub insert-HasDistinctTexts :
    (t : Tag) (ts : List Tag)
    → HasDistinctTexts ts
    → HasDistinctTexts (if has_text (to_string t) ts then ts else t ∷ ts)
insert-HasDistinctTexts t ts d = elim (Bool-cases (has_text (to_string t) ts)) [
  | inl e ↦ subst (λ b. HasDistinctTexts (if b then ts else t ∷ ts)) (sym e) d
  | inr e ↦ subst (λ b. HasDistinctTexts (if b then ts else t ∷ ts)) (sym e) (e, d)
]

abbrev pub put : Tag → DistinctTags → DistinctTags
put t (ts, d) = ((if has_text (to_string t) ts then ts else t ∷ ts), insert-HasDistinctTexts t ts d)

pub has_text-put :
    (k : Text) (t : Tag) (s : DistinctTags)
    → has_text k (put t s).0 ≡ (text_eq k (to_string t) || has_text k s.0)
has_text-put k t (ts, d) = ground (
  arith,
  λ (e : text_eq k (to_string t) ≡ true).
      ap (λ z. has_text z ts) ((text_eq_iff k (to_string t)).0 e),
)

pub All-put : (P : Tag → Type 0) (t : Tag) (s : DistinctTags) → P t → All P s.0 → All P (put t s).0
All-put P t (ts, d) h a = elim (Bool-cases (has_text (to_string t) ts)) [
  | inl e ↦ subst (λ b. All P (if b then ts else t ∷ ts)) (sym e) a
  | inr e ↦ subst (λ b. All P (if b then ts else t ∷ ts)) (sym e) (h, a)
]

-- a test that reads the text only
pub has_text-keep :
    (test : Text → Bool) (k : Text) (ts : List Tag)
    → has_text k (keep (λ (t : Tag). test (to_string t)) ts) ≡ (has_text k ts && test k)
has_text-keep test k [] = refl
has_text-keep test k (t ∷ ts) = ground (
  arith,
  has_text-keep test k ts,
  λ (e : text_eq k (to_string t) ≡ true). ap test ((text_eq_iff k (to_string t)).0 e),
)

pub keep-HasDistinctTexts :
    (test : Text → Bool) (ts : List Tag)
    → HasDistinctTexts ts
    → HasDistinctTexts (keep (λ (t : Tag). test (to_string t)) ts)
keep-HasDistinctTexts test [] d = tt
keep-HasDistinctTexts test (t ∷ ts) (fresh, d) =
    ground (arith, keep-HasDistinctTexts test ts d, has_text-keep test (to_string t) ts, fresh)

abbrev pub list_text_sets : TextSets
list_text_sets = record {
  Set = DistinctTags;
  elems = λ s. s.0;
  new = ([], tt);
  add = put;
  diff = λ s t. (
    keep (λ (x : Tag). not (has_text (to_string x) t.0)) s.0,
    keep-HasDistinctTexts (λ k. not (has_text k t.0)) s.0 s.1,
  );
  intersection = λ s t. (
    keep (λ (x : Tag). has_text (to_string x) t.0) s.0,
    keep-HasDistinctTexts (λ k. has_text k t.0) s.0 s.1,
  );
  elems_new = refl;
  distinct = λ s. s.1;
  has_add = has_text-put;
  has_diff = λ k s t. has_text-keep (λ z. not (has_text z t.0)) k s.0;
  has_intersection = λ k s t. has_text-keep (λ z. has_text z t.0) k s.0;
  all_add = All-put;
  all_diff = λ P s t. All-keep P P (λ (x : Tag). not (has_text (to_string x) t.0)) s.0 (λ x p _. p);
  all_intersection =
      λ P s t. All-keep P P (λ (x : Tag). has_text (to_string x) t.0) s.0 (λ x p _. p);
}
