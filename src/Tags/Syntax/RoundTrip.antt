-- ===== src/Tags/Syntax/RoundTrip.antt =====
-- `parse` and `parseTags` on the texts that `EditString` and `Escaped` of DataManager/tags.go write.
use pbooru.Prelude.{
  All, ℕ, ◌≡◌, refl, sym, ◌∙◌, ap, true, false, not, ◌||◌, List, [], ◌∷◌, ◌++◌, none, some, map,
  arith, ◌==◌, if◌then◌else◌, mem, is_empty, Bool-cases, inl, inr,
}
use mathlib.Core.Path.{subst}
use mathlib.Core.List.{Mem, append_assoc, append-nil, mem-cons_self, mem-cons_of_mem}
use pbooru.Tags.Syntax.Parse.{parse_tags, print_tags, receive}
use pbooru.Tags.TextSets.{
  HasDistinctTexts, TextSets, All-collect_new, collect, has_text, has_text-collect_new,
}
use pbooru.Text.{Text, text_eq, text_eq_iff, trim_space, is_trimmed, trim_space-is_trimmed}
use pbooru.Tags.Syntax.{
  Tag, no_namespace, starts_with_colon, edit_string, escape, escaped, split_colon, or_none, parse,
  next, spit,
}

-- one character of an escaped text
abbrev escape_char : ℕ → Text
escape_char c =
    if c == 0x5c then 0x5c ∷ 0x5c ∷ [] else if c == b',' then 0x5c ∷ b',' ∷ [] else c ∷ []

escape-cons : (c : ℕ) (s : Text) → escape (c ∷ s) ≡ escape_char c ++ escape s
unfolding escape
escape-cons c s = ground arith

spit-escape_char :
    (c : ℕ) (cur t : Text)
    → (10 == c) ≡ false
    → spit next cur (escape_char c ++ t) ≡ spit next (cur ++ c ∷ []) t
unfolding spit
spit-escape_char c cur t h = ground arith

spit-escape :
    (s cur rest : Text)
    → mem 10 s ≡ false
    → spit next cur (escape s ++ 10 ∷ rest) ≡ (cur ++ s) ∷ spit next [] rest
spit-escape [] cur rest h = unfold escape spit in ground (arith, append-nil cur)
spit-escape (c ∷ s) cur rest h =
    ap (λ e. spit next cur (e ++ 10 ∷ rest)) (escape-cons c s)
    ∙ ap (spit next cur) (append_assoc (escape_char c) (escape s) (10 ∷ rest))
    ∙ spit-escape_char c cur (escape s ++ 10 ∷ rest) (ground arith)
    ∙ spit-escape s (cur ++ c ∷ []) rest (ground arith)
    ∙ ap (λ t. t ∷ spit next [] rest) (append_assoc cur (c ∷ []) s)

split_colon-append : (a b : Text) → mem b':' a ≡ false → split_colon (a ++ b':' ∷ b) ≡ some (a, b)
unfolding split_colon
split_colon-append [] b h = refl
split_colon-append (c ∷ a) b h = ground (arith, split_colon-append a b)

split_colon-none : (s : Text) → mem b':' s ≡ false → split_colon s ≡ none
unfolding split_colon
split_colon-none [] h = refl
split_colon-none (c ∷ s) h = ground (arith, split_colon-none s)

-- a tag as `parse` makes it, which the colon does not make ambiguous
pub record IsPlain (t : Tag) : Type 0 where
  pub id : t.id ≡ 0
  pub count : t.count ≡ 0
  pub tag_trimmed : is_trimmed t.tag ≡ true
  pub namespace_trimmed : is_trimmed t.namespace ≡ true
  pub has_namespace : is_empty t.namespace ≡ false
  -- a colon stands in front of a tag with no namespace, or nowhere in it; a namespace has none
  pub colon :
      (if text_eq t.namespace no_namespace
        then starts_with_colon t.tag || not (mem b':' t.tag)
        else not (mem b':' t.namespace))
      ≡ true

parse_colon :
    (ns tag : Text)
    → mem b':' ns ≡ false
    → parse (ns ++ b':' ∷ tag)
      ≡ record { id = 0; tag = trim_space tag; namespace = or_none (trim_space ns); count = 0 }
unfolding parse
parse_colon ns tag h = rw (split_colon-append ns tag h, parse) refl

parse_no_colon :
    (s : Text)
    → mem b':' s ≡ false
    → parse s ≡ record { id = 0; tag = trim_space s; namespace = or_none []; count = 0 }
unfolding parse
parse_no_colon s h = rw (split_colon-none s h, parse) refl

same_tag :
    (t : Tag) (tag ns : Text)
    → t.id ≡ 0
    → t.count ≡ 0
    → tag ≡ t.tag
    → ns ≡ t.namespace
    → record { id = 0; tag = tag; namespace = ns; count = 0 } ≡ t
same_tag t tag ns i c e f = ground arith

edit_string_colon :
    (t : Tag)
    → text_eq t.namespace no_namespace ≡ true
    → starts_with_colon t.tag ≡ true
    → edit_string t ≡ b':' ∷ t.tag
unfolding edit_string
edit_string_colon t h k = ground arith

edit_string_plain :
    (t : Tag)
    → text_eq t.namespace no_namespace ≡ true
    → starts_with_colon t.tag ≡ false
    → edit_string t ≡ t.tag
unfolding edit_string
edit_string_plain t h k = ground arith

edit_string_namespace :
    (t : Tag)
    → text_eq t.namespace no_namespace ≡ false
    → edit_string t ≡ t.namespace ++ b':' ∷ t.tag
unfolding edit_string
edit_string_namespace t h = ground arith

or_none_id : (ns : Text) → is_empty ns ≡ false → or_none ns ≡ ns
unfolding or_none
or_none_id ns h = ground arith

or_none_nil : or_none (trim_space []) ≡ no_namespace
unfolding or_none trim_space
or_none_nil = refl

-- `parse` reads a tag back from its edit string, if the tag is trimmed, has a namespace, and holds
-- no colon where the edit string would make one ambiguous.
pub parse-edit_string : (t : Tag) → IsPlain t → parse (edit_string t) ≡ t
parse-edit_string t p =
    let trimmed = trim_space-is_trimmed t.tag p.tag_trimmed in
    elim (Bool-cases (text_eq t.namespace no_namespace)) [
      | inl none' ↦
          let ns : t.namespace ≡ no_namespace = (text_eq_iff t.namespace no_namespace).0 none' in
          elim (Bool-cases (starts_with_colon t.tag)) [
            | inl colon ↦
                ap parse (edit_string_colon t none' colon)
                ∙ parse_colon [] t.tag refl
                ∙ same_tag t (trim_space t.tag) (or_none (trim_space [])) p.id p.count trimmed
                    (or_none_nil ∙ sym ns)
            | inr plain ↦
                ap parse (edit_string_plain t none' plain)
                ∙ parse_no_colon t.tag (ground (arith, p.colon))
                ∙ same_tag t (trim_space t.tag) (or_none []) p.id p.count trimmed
                    (unfold or_none in sym ns)
          ]
      | inr some' ↦
          let kept = trim_space-is_trimmed t.namespace p.namespace_trimmed in
          ap parse (edit_string_namespace t some')
          ∙ parse_colon t.namespace t.tag (ground (arith, p.colon))
          ∙ same_tag t (trim_space t.tag) (or_none (trim_space t.namespace)) p.id p.count trimmed
              (ap or_none kept ∙ or_none_id t.namespace p.has_namespace)
    ]

-- A tag with no namespace whose text holds a colon behind other characters is read back from its
-- edit string as another tag: the text before the colon becomes its namespace.
pub parse-edit_string_colon :
    (a b : Text)
    → is_empty (trim_space a) ≡ false
    → mem b':' a ≡ false
    → starts_with_colon (a ++ b':' ∷ b) ≡ false
    → parse
        (edit_string (record { id = 0; tag = a ++ b':' ∷ b; namespace = no_namespace; count = 0 }))
      ≡ record { id = 0; tag = trim_space b; namespace = trim_space a; count = 0 }
parse-edit_string_colon a b n m s =
    let t : Tag = record { id = 0; tag = a ++ b':' ∷ b; namespace = no_namespace; count = 0 } in
    ap parse (edit_string_plain t (unfold text_eq in refl) s)
    ∙ parse_colon a b m
    ∙ ap (λ (ns : Text). record { id = 0; tag = trim_space b; namespace = ns; count = 0 })
        (or_none_id (trim_space a) n)

-- a text that trimming and lowering leave as it is, and that a token can hold
pub record IsToken (lower : ℕ → ℕ) (s : Text) : Type 0 where
  pub trimmed : is_trimmed s ≡ true
  pub lowered : map lower s ≡ s
  pub nonempty : is_empty s ≡ false
  pub one_line : mem 10 s ≡ false

abbrev pub AreWritable : (ℕ → ℕ) → List Tag → Type 0
AreWritable lower [] = Unit {0}
AreWritable lower (t ∷ ts) =
    IsPlain t × (is_empty t.tag ≡ false) × IsToken lower (edit_string t) × AreWritable lower ts

All-Mem : (ts us : List Tag) → ((t : Tag) → Mem t ts → Mem t us) → All (λ t. Mem t us) ts
All-Mem [] us h = tt
All-Mem (t ∷ ts) us h = (h t mem-cons_self, All-Mem ts us (λ u m. h u (mem-cons_of_mem t m)))

module _ (lower : ℕ → ℕ) where
  receive-edit_string :
      (t : Tag) (tokens : List Text)
      → IsPlain t
      → is_empty t.tag ≡ false
      → IsToken lower (edit_string t)
      → receive lower (edit_string t ∷ tokens) ≡ t ∷ receive lower tokens
  unfolding receive
  receive-edit_string t tokens p n k =
      let same : parse (map lower (trim_space (edit_string t))) ≡ t =
        ap (λ s. parse (map lower s)) (trim_space-is_trimmed (edit_string t) k.trimmed)
        ∙ ap parse k.lowered
        ∙ parse-edit_string t p in
      ap (λ (z : Tag). if is_empty z.tag then receive lower tokens else z ∷ receive lower tokens)
        same
      ∙ ap (λ b. if b then receive lower tokens else t ∷ receive lower tokens) n

  receive-print_tags :
      (ts : List Tag) → AreWritable lower ts → receive lower (spit next [] (print_tags ts)) ≡ ts
  unfolding print_tags escaped
  receive-print_tags [] w = unfold spit receive in refl
  receive-print_tags (t ∷ ts) (p, n, k, w) =
      ap (receive lower) (spit-escape (edit_string t) [] (print_tags ts) k.one_line)
      ∙ receive-edit_string t (spit next [] (print_tags ts)) p n k
      ∙ ap (λ r. t ∷ r) (receive-print_tags ts w)

  -- Tags that are printed for editing are parsed into the set of them, if each is plain, has a text, and
  -- its edit string is trimmed, lower-case and on one line: the set has the texts of these tags and no
  -- other, each once, and every element of it is one of these tags.
  pub parse_tags-print_tags :
      (T : TextSets) (ts : List Tag)
      → AreWritable lower ts
      → ((k : Text) → has_text k (T.elems (parse_tags lower T (print_tags ts))) ≡ has_text k ts)
        × HasDistinctTexts (T.elems (parse_tags lower T (print_tags ts)))
        × All (λ t. Mem t ts) (T.elems (parse_tags lower T (print_tags ts)))
  unfolding parse_tags
  parse_tags-print_tags T ts w =
      let same = receive-print_tags ts w in
      let set = parse_tags lower T (print_tags ts) in
      (
        λ k.
            has_text-collect_new T k (receive lower (spit next [] (print_tags ts)))
            ∙ ap (has_text k) same,
        T.distinct set,
        subst (λ rs. All (λ t. Mem t ts) (T.elems (collect T rs T.new))) (sym same)
            (All-collect_new T (λ t. Mem t ts) ts (All-Mem ts ts (λ t m. m))),
      )
