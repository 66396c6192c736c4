-- ===== src/Tags/Syntax/Examples.antt =====
-- Runs of the round trips at concrete tags.
use pbooru.Prelude.{ℕ, ◌+◌, ◌≡◌, refl, false, [], ◌∷◌, ◌&&◌, leb, if◌then◌else◌, is_empty, All}
use pbooru.Text.{codes, text_eq, is_space, trim_left, trim_right, trim_space, is_trimmed, Text}
use pbooru.Tags.Syntax.{
  Tag, to_string, starts_with_colon, edit_string, spit, parse, split_colon, or_none,
}
use mathlib.Core.List.{Mem}
use pbooru.Tags.TextSets.{HasDistinctTexts, collect, has_text, list_text_sets}
use pbooru.Tags.Syntax.Parse.{parse_tags, print_tags, receive}
use pbooru.Tags.Syntax.RoundTrip.{IsPlain, IsToken, parse_tags-print_tags}

abbrev cat : Tag
cat = record { id = 0; tag = codes "cat, \\ black"; namespace = codes "animal"; count = 0 }

abbrev smile : Tag
smile = record { id = 0; tag = codes ":)"; namespace = codes "none"; count = 0 }

cat-IsPlain : IsPlain cat
unfolding text_eq is_space trim_left trim_right trim_space is_trimmed starts_with_colon
cat-IsPlain = record {
  id = refl;
  count = refl;
  tag_trimmed = refl;
  namespace_trimmed = refl;
  has_namespace = refl;
  colon = refl;
}

smile-IsPlain : IsPlain smile
unfolding text_eq is_space trim_left trim_right trim_space is_trimmed starts_with_colon
smile-IsPlain = record {
  id = refl;
  count = refl;
  tag_trimmed = refl;
  namespace_trimmed = refl;
  has_namespace = refl;
  colon = refl;
}

is_empty-trim_example : is_empty (trim_space (codes "a")) ≡ false
unfolding is_space trim_left trim_right trim_space
is_empty-trim_example = refl

-- unicode.ToLower on ASCII
abbrev ascii_lower : ℕ → ℕ
ascii_lower c = if leb 65 c && leb c 90 then c + 32 else c

cat-IsToken : IsToken ascii_lower (edit_string cat)
unfolding text_eq is_space trim_left trim_right trim_space is_trimmed edit_string to_string
    starts_with_colon
cat-IsToken = record { trimmed = refl; lowered = refl; nonempty = refl; one_line = refl }

smile-IsToken : IsToken ascii_lower (edit_string smile)
unfolding text_eq is_space trim_left trim_right trim_space is_trimmed edit_string to_string
    starts_with_colon
smile-IsToken = record { trimmed = refl; lowered = refl; nonempty = refl; one_line = refl }

parse_tags-print_tags_example :
    ((k : Text)
      → has_text k (parse_tags ascii_lower list_text_sets (print_tags (cat ∷ smile ∷ []))).0
        ≡ has_text k (cat ∷ smile ∷ []))
    × HasDistinctTexts (parse_tags ascii_lower list_text_sets (print_tags (cat ∷ smile ∷ []))).0
    × All
        (λ t. Mem t (cat ∷ smile ∷ []))
        (parse_tags ascii_lower list_text_sets (print_tags (cat ∷ smile ∷ []))).0
parse_tags-print_tags_example =
    parse_tags-print_tags ascii_lower list_text_sets (cat ∷ smile ∷ [])
      (cat-IsPlain, refl, cat-IsToken, (smile-IsPlain, refl, smile-IsToken, tt))

-- a tag that is listed twice is in it once
parse_tags_twice :
    (parse_tags ascii_lower list_text_sets (codes "A,b, a")).0
    ≡ record { id = 0; tag = codes "b"; namespace = codes "none"; count = 0 }
      ∷ record { id = 0; tag = codes "a"; namespace = codes "none"; count = 0 }
      ∷ []
unfolding parse_tags receive collect spit parse split_colon or_none trim_space trim_left trim_right
    is_space text_eq to_string
parse_tags_twice = refl
