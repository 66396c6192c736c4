-- ===== src/Tags/Syntax/Parse.antt =====
-- `parseTags` of DataManager/tag_set.go, and the template that prints a list of tags for editing.
-- `unicode.ToLower` of one code point is the parameter `lower`. The channel between the two goroutines
-- is a list.
use pbooru.Prelude.{List, [], if◌then◌else◌, is_empty, map, ℕ, ◌++◌, ◌∷◌}
use pbooru.Text.{Text, trim_space}
use pbooru.Tags.Syntax.{Tag, escaped, next, parse, spit}
use pbooru.Tags.TextSets.{TextSets, collect}

-- `printTags` of the templates: each tag on a line of its own
unfoldable pub print_tags : List Tag → Text
unfolding escaped
print_tags [] = []
print_tags (t ∷ ts) = escaped t ++ 10 ∷ print_tags ts

module _ (lower : ℕ → ℕ) where
  -- what the receiving loop puts into its set: tags with no text are discarded
  unfoldable pub receive : List Text → List Tag
  unfolding parse
  receive [] = []
  receive (raw ∷ tokens) =
      let t = parse (map lower (trim_space raw)) in
      let rest = receive tokens in if is_empty t.tag then rest else t ∷ rest

  unfoldable pub parse_tags : (T : TextSets) → Text → T.Set
  unfolding receive spit collect
  parse_tags T s = collect T (receive (spit next [] s)) T.new
