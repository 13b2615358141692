-- ===== src/Imports.antt =====
-- lsengine/internal/imports/import_processor.go: the imports of a script block. The line that the pattern of
-- an import matches is taken apart here; texts are ASCII. A part of the result keeps what it was made from,
-- and `imported_text` is its text.
pub mod Blocks
pub mod Tags
pub mod Sources
pub mod Limits
pub mod Contents
pub mod Pages
mod Tests
use lsengine_js.Base.{
  ℕ, zero, suc, ◌+◌, Bool, true, false, not, ◌&&◌, ◌||◌, Option, none, some, List, [], ◌∷◌, ◌++◌,
  if◌then◌else◌, ◌==◌, ltb, leb, length, drop, Text, bytes, text_eq, has_prefix, is_empty, split,
  join_with, trim_space, to_lower,
}
use lsengine_js.Security.{
  FileSystem, ImportContext, max_imports_per_file, max_import_depth, check_and_mark_visited,
  increment_count, increment_depth, decrement_depth, Refusal, depth_reached, violation, Verdict,
  accepted, refused, any_prefix,
}
use lsengine_js.Security.Content.{is_blank, is_quote, skip_while, validate_script_content}
use lsengine_js.Security.Reading.{
  ImportProcessor, count_violation, read_local_file, resolve_schemes,
}

infixl 5 ◌>>=◌
abbrev ◌>>=◌ {ℓ κ} : {A : Type ℓ} {B : Type κ} → Option A → (A → Option B) → Option B
none >>= k = none
some a >>= k = k a

-- What follows a text that a line begins with.
abbrev after : Text → Text → Option Text
after p s = if has_prefix s p then some (drop (length p) s) else none

-- `\s+`
abbrev some_blanks : Text → Option Text
some_blanks [] = none
some_blanks (c ∷ s) = if is_blank c then some (skip_while is_blank s) else none

-- The bytes that pass a test, at the begin of a text.
unfoldable pub take_while : (ℕ → Bool) → Text → Text
take_while test [] = []
take_while test (c ∷ s) = if test c then c ∷ take_while test s else []

-- `[^…]+`, with what follows
abbrev some_of : (ℕ → Bool) → Text → Option (Text × Text)
some_of test s =
    if is_empty (take_while test s) then none else some (take_while test s, skip_while test s)

abbrev one_quote : Text → Option Text
one_quote [] = none
one_quote (c ∷ s) = if is_quote c then some s else none

abbrev skip_one : ℕ → Text → Text
skip_one c [] = []
skip_one c (x ∷ s) = if x == c then s else x ∷ s

abbrev is_tab : ℕ → Bool
is_tab c = c == b' ' || c == 9

-- `importLineRe` on one line: what stands in the braces, and the path.
unfoldable pub import_line : Text → Option (Text × Text)
unfolding skip_while take_while has_prefix
import_line line = do
  let start = skip_while is_tab line
  word ← after (bytes "import") start
  gap ← some_blanks word
  brace ← after (bytes "{") gap
  (names, rest) ← some_of (λ c. not (c == b'}')) brace
  closed ← after (bytes "}") rest
  more ← some_blanks closed
  source ← after (bytes "from") more
  quoted ← some_blanks source
  inner ← one_quote quoted
  (path, last) ← some_of (λ c. not (is_quote c)) inner
  ends ← one_quote last
  if is_empty (skip_while is_tab (skip_one b';' (skip_while is_blank ends)))
      then some (names, path)
      else none

abbrev keep_full : List Text → List Text
keep_full [] = []
keep_full (p ∷ ps) = if is_empty (trim_space p) then keep_full ps else trim_space p ∷ keep_full ps

unfoldable pub parse_import_specifiers : Text → List Text
unfolding trim_space split
parse_import_specifiers raw = keep_full (split b',' (trim_space raw))
