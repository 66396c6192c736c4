-- ===== src/Tags/Syntax.antt =====
-- The text of tags: `Tag` with `String`, `EditString`, `Escaped` and `parse` of DataManager/tags.go,
-- and the texts that the goroutine of `parseTags` (DataManager/tag_set.go) sends.
pub mod Parse
pub mod RoundTrip
mod Examples
use pbooru.Prelude.{
  ℕ, Bool, true, false, ◌&&◌, ◌||◌, List, [], ◌∷◌, ◌++◌, Option, none, some, map, ◌==◌,
  if◌then◌else◌, is_empty,
}
use pbooru.Text.{Text, codes, text_eq, trim_space}

pub record Tag : Type 0 where
  pub id : ℕ
  pub tag : Text
  pub namespace : Text
  pub count : ℕ

abbrev pub no_namespace : Text
no_namespace = codes "none"

unfoldable pub to_string : Tag → Text
unfolding text_eq
to_string t = if text_eq t.namespace no_namespace then t.tag else t.namespace ++ b':' ∷ t.tag

-- strings.HasPrefix(s, ":")
unfoldable pub starts_with_colon : Text → Bool
starts_with_colon [] = false
starts_with_colon (c ∷ s) = c == b':'

unfoldable pub edit_string : Tag → Text
unfolding to_string starts_with_colon
edit_string t =
    if text_eq t.namespace no_namespace && starts_with_colon t.tag
    then b':' ∷ t.tag
    else to_string t

-- strings.ReplaceAll of one character
unfoldable pub replace_all : ℕ → Text → Text → Text
replace_all c new [] = []
replace_all c new (x ∷ s) = (if x == c then new else x ∷ []) ++ replace_all c new s

-- a backslash becomes two, a comma gets one before it
unfoldable pub escape : Text → Text
unfolding replace_all
escape s = replace_all b',' (0x5c ∷ b',' ∷ []) (replace_all 0x5c (0x5c ∷ 0x5c ∷ []) s)

unfoldable pub escaped : Tag → Text
unfolding escape edit_string
escaped t = escape (edit_string t)

-- strings.SplitN(str, ":", 2): `none` is one part
unfoldable pub split_colon : Text → Option (Text × Text)
split_colon [] = none
split_colon (c ∷ s) = elim (c == b':') [
  | true ↦ some ([], s)
  | false ↦ elim (split_colon s) [ none ↦ none | some (a, b) ↦ some (c ∷ a, b) ]
]

unfoldable pub or_none : Text → Text
or_none ns = if is_empty ns then no_namespace else ns

-- `var t Tag; t.parse(str)`
unfoldable pub parse : Text → Tag
unfolding split_colon or_none trim_space
parse str = elim (split_colon str) [
  | none ↦ record { id = 0; tag = trim_space str; namespace = or_none []; count = 0 }
  | some (ns, tag) ↦ record {
    id = 0;
    tag = trim_space tag;
    namespace = or_none (trim_space ns);
    count = 0;
  }
]

pub data State : Type 0 where
  next unescape : State

-- the goroutine of parseTags: the texts that it builds and sends, before trimming and lowering
unfoldable pub spit : State → Text → Text → List Text
spit state tag [] = if is_empty tag then [] else tag ∷ []
spit next tag (c ∷ s) =
    let escape_next = spit unescape tag s in
    let sent = tag ∷ spit next [] s in
    let more = spit next (tag ++ c ∷ []) s in
    if c == 0x5c then escape_next else if c == b',' || c == 10 then sent else more
spit unescape tag (c ∷ s) =
    let ignored = spit next tag s in
    let more = spit next (tag ++ c ∷ []) s in if c == 10 then ignored else more
