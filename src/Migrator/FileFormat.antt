-- ===== src/Migrator/FileFormat.antt =====
-- `parseFileContent` of DataManager/migrator/file.go: lines `# name` with the dependencies, and then
-- the sql. `none` is io.EOF. The text is the file's code points; the bytes `#` and newline are the
-- same in UTF-8.
use pbooru.Prelude.{
  ℕ, ◌≡◌, refl, sym, ◌∙◌, ap, true, false, List, [], ◌∷◌, ◌++◌, Option, none, some, arith, ◌==◌,
  if◌then◌else◌, mem,
}
use mathlib.Core.List.{append_assoc, append-nil}
use pbooru.Text.{Text, trim_space, is_trimmed, trim_space-snoc, is_space}
use pbooru.Migrator.{File}

-- `line` is what `ReadString` has read of a dependency's line, if the loop is inside one
unfoldable pub parse_loop : Option Text → List Text → Text → Option File
parse_loop line deps [] = none
parse_loop none deps (c ∷ s) =
    let rest = parse_loop (some []) deps s in
    if c == b'#' then rest else some (record { dependencies = deps; sql = c ∷ s })
parse_loop (some line) deps (c ∷ s) =
    let next = parse_loop none (deps ++ trim_space (line ++ c ∷ []) ∷ []) s in
    let more = parse_loop (some (line ++ c ∷ [])) deps s in if c == 10 then next else more

unfoldable pub parse_file_content : Text → Option File
unfolding parse_loop
parse_file_content s = parse_loop none [] s

-- a file with these dependencies
unfoldable pub print_file : List Text → Text → Text
print_file [] sql = sql
print_file (d ∷ deps) sql = b'#' ∷ (d ++ 10 ∷ print_file deps sql)

-- a name that stands on a line: trimmed, and with no newline
abbrev pub AreNames : List Text → Type 0
AreNames [] = Unit {0}
AreNames (d ∷ deps) = (is_trimmed d ≡ true) × (mem 10 d ≡ false) × AreNames deps

parse_line :
    (d line rest : Text) (deps : List Text)
    → mem 10 d ≡ false
    → parse_loop (some line) deps (d ++ 10 ∷ rest)
      ≡ parse_loop none (deps ++ trim_space ((line ++ d) ++ 10 ∷ []) ∷ []) rest
unfolding parse_loop
parse_line [] line rest deps h =
    ap (λ l. parse_loop none (deps ++ trim_space (l ++ 10 ∷ []) ∷ []) rest) (sym (append-nil line))
parse_line (c ∷ d) line rest deps h =
    ground (arith, parse_line d (line ++ c ∷ []) rest deps, append_assoc line (c ∷ []) d)

parse_loop-print_file :
    (names deps : List Text) (c : ℕ) (sql : Text)
    → AreNames names
    → (c == b'#') ≡ false
    → parse_loop none deps (print_file names (c ∷ sql))
      ≡ some (record { dependencies = deps ++ names; sql = c ∷ sql })
unfolding print_file parse_loop
parse_loop-print_file [] deps c sql n h = ground (arith, append-nil deps)
parse_loop-print_file (d ∷ names) deps c sql (t, l, n) h =
    parse_line d [] (print_file names (c ∷ sql)) deps l
    ∙ ap (λ z. parse_loop none (deps ++ z ∷ []) (print_file names (c ∷ sql)))
        (trim_space-snoc d 10 t (unfold is_space in refl))
    ∙ parse_loop-print_file names (deps ++ d ∷ []) c sql n h
    ∙ ap (λ z. some (record { dependencies = z; sql = c ∷ sql })) (append_assoc deps (d ∷ []) names)

-- A file that is written with dependency lines and a text of sql that is not empty and starts with
-- no `#` is parsed into these dependencies, in order, and that sql.
pub parse-print_file :
    (names : List Text) (c : ℕ) (sql : Text)
    → AreNames names
    → (c == b'#') ≡ false
    → parse_file_content (print_file names (c ∷ sql))
      ≡ some (record { dependencies = names; sql = c ∷ sql })
unfolding parse_file_content
parse-print_file names c sql n h = parse_loop-print_file names [] c sql n h

parse_loop_no_sql :
    (names deps : List Text) → AreNames names → parse_loop none deps (print_file names []) ≡ none
unfolding print_file parse_loop
parse_loop_no_sql [] deps n = refl
parse_loop_no_sql (d ∷ names) deps (t, l, n) =
    parse_line d [] (print_file names []) deps l
    ∙ parse_loop_no_sql names (deps ++ trim_space (d ++ 10 ∷ []) ∷ []) n

-- A file of dependency lines with no sql behind them is refused (io.EOF), an empty one too.
pub parse-print_file_no_sql :
    (names : List Text) → AreNames names → parse_file_content (print_file names []) ≡ none
unfolding parse_file_content
parse-print_file_no_sql names n = parse_loop_no_sql names [] n
