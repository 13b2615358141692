-- ===== src/Security/Content.antt =====
-- lsengine/internal/security/security.go, `ValidateScriptContent`: the blocked patterns, written out, and the
-- limit of the size. A pattern is a row of pieces; each repeated piece ends at a byte that it does not take,
-- so a match takes as much as it can.
use lsengine_js.Base.{
  ℕ, ◌+◌, Bool, true, false, not, ◌&&◌, ◌||◌, Option, none, some, List, [], ◌∷◌, if◌then◌else◌,
  ◌==◌, leb, ltb, length, Text, bytes, to_lower, has_prefix, drop,
}
use lsengine_js.Security.{max_script_code_size, Refusal, blocked_pattern, script_too_large}

-- A text, a text in either case, `\s*`, `['"]`, `[^'"]*`, and `\d+`.
pub data Piece : Type 0 where
  exactly : Text → Piece
  any_case : Text → Piece
  spaces : Piece
  quote : Piece
  no_quotes : Piece
  digits : Piece

-- `\s` of package regexp
abbrev pub is_blank : ℕ → Bool
is_blank c = c == b' ' || c == 9 || c == 10 || c == 12 || c == 13

abbrev pub is_quote : ℕ → Bool
is_quote c = c == b'\'' || c == b'"'

abbrev pub is_digit : ℕ → Bool
is_digit c = leb b'0' c && leb c b'9'

unfoldable pub skip_while : (ℕ → Bool) → Text → Text
skip_while test [] = []
skip_while test (c ∷ s) = if test c then skip_while test s else c ∷ s

abbrev one_of : (ℕ → Bool) → Text → Option Text
one_of test [] = none
one_of test (c ∷ s) = if test c then some s else none

-- What is left after a piece.
unfoldable pub match_piece : Piece → Text → Option Text
unfolding skip_while has_prefix to_lower
match_piece (exactly p) s = if has_prefix s p then some (drop (length p) s) else none
match_piece (any_case p) s = if has_prefix (to_lower s) p then some (drop (length p) s) else none
match_piece spaces s = some (skip_while is_blank s)
match_piece quote s = one_of is_quote s
match_piece no_quotes s = some (skip_while (λ c. not (is_quote c)) s)
match_piece digits s = elim (one_of is_digit s) [
  | none ↦ none
  | some rest ↦ some (skip_while is_digit rest)
]

unfoldable pub match_here : List Piece → Text → Bool
unfolding match_piece
match_here [] s = true
match_here (p ∷ ps) s = elim (match_piece p s) [ none ↦ false | some rest ↦ match_here ps rest ]

-- `MatchString`: a match at some place
unfoldable pub match_string : List Piece → Text → Bool
unfolding match_here
match_string ps [] = match_here ps []
match_string ps (c ∷ s) = match_here ps (c ∷ s) || match_string ps s

abbrev timer : Text → List Piece
timer name =
    exactly name
    ∷ spaces
    ∷ exactly (bytes "(")
    ∷ spaces
    ∷ quote
    ∷ no_quotes
    ∷ quote
    ∷ spaces
    ∷ exactly (bytes ",")
    ∷ spaces
    ∷ digits
    ∷ spaces
    ∷ exactly (bytes ")")
    ∷ []

-- `BlockedPatterns`
abbrev pub blocked_patterns : List (List Piece)
blocked_patterns =
    (any_case (bytes "eval") ∷ spaces ∷ exactly (bytes "(") ∷ [])
    ∷ (any_case (bytes "document.write") ∷ spaces ∷ exactly (bytes "(") ∷ [])
    ∷ timer (bytes "setTimeout")
    ∷ timer (bytes "setInterval")
    ∷ []

-- the loop over the patterns: the first that matches
unfoldable pub blocked_by : ℕ → List (List Piece) → Text → Option ℕ
unfolding match_string
blocked_by i [] content = none
blocked_by i (p ∷ ps) content =
    if match_string p content then some i else blocked_by (i + 1) ps content

-- `none` is a script that may be used.
unfoldable pub validate_script_content : Text → Option Refusal
unfolding blocked_by
validate_script_content content = elim (blocked_by 0 blocked_patterns content) [
  | some i ↦ some (blocked_pattern i)
  | none ↦
      if ltb max_script_code_size (length content)
      then some (script_too_large (length content))
      else none
]
