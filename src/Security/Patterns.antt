-- ===== src/Security/Patterns.antt =====
-- lsengine/internal/security/security.go, `ValidateScriptContent`: which scripts are refused.
use lsengine_js.Base.{
  true-false, ℕ, ◌+◌, ◌≤◌, ◌≡◌, ◌≢◌, refl, ◌∙◌, ap, true, false, none, some, List, [], ◌∷◌, ◌++◌,
  arith, length, All, ◌⊎◌, Bool-cases, Option-cases, inl, inr, Text, bytes, to_lower, has_prefix,
  drop,
}
use lsengine_js.Security.{max_script_code_size}
use lsengine_js.Security.Content.{
  Piece, exactly, any_case, spaces, is_blank, skip_while, match_piece, match_here, match_string,
  blocked_patterns, blocked_by, validate_script_content,
}

match_string-append :
    (ps : List Piece) (a s : Text) → match_here ps s ≡ true → match_string ps (a ++ s) ≡ true
unfolding match_string
match_string-append ps [] [] h = h
match_string-append ps [] (c ∷ s) h = rw h refl
match_string-append ps (x ∷ a) s h = ground (arith, match_string-append ps a s h)

skip_while-append :
    (ws s : Text)
    → All (λ c. is_blank c ≡ true) ws
    → skip_while is_blank (ws ++ (b'(' ∷ s)) ≡ b'(' ∷ s
unfolding skip_while
skip_while-append [] s h = refl
skip_while-append (w ∷ ws) s h = rw h.0 (skip_while-append ws s h.1)

to_lower-append : (a s : Text) → to_lower (a ++ s) ≡ to_lower a ++ to_lower s
unfolding to_lower
to_lower-append [] s = refl
to_lower-append (c ∷ a) s = rw (to_lower-append a s) refl

has_prefix-append : (a s : Text) → has_prefix (a ++ s) a ≡ true
unfolding has_prefix
has_prefix-append [] s = refl
has_prefix-append (c ∷ a) s = ground (arith, has_prefix-append a s)

drop-append {ℓ} : {A : Type ℓ} (a s : List A) → drop (length a) (a ++ s) ≡ s
drop-append [] s = refl
drop-append (x ∷ a) s = drop-append a s

length-to_lower : (a : Text) → length (to_lower a) ≡ length a
unfolding to_lower
length-to_lower [] = refl
length-to_lower (c ∷ a) = omega (arith, length-to_lower a)

any_case-append :
    (word rest : Text) → match_piece (any_case (to_lower word)) (word ++ rest) ≡ some rest
unfolding match_piece
any_case-append word rest =
    rw
      (
        to_lower-append word rest,
        has_prefix-append (to_lower word) (to_lower rest),
        length-to_lower word,
        drop-append word rest,
      )
      refl

spaces-append :
    (ws s : Text)
    → All (λ c. is_blank c ≡ true) ws
    → match_piece spaces (ws ++ (b'(' ∷ s)) ≡ some (b'(' ∷ s)
unfolding match_piece
spaces-append ws s h = rw (skip_while-append ws s h) refl

match_step :
    (p : Piece) (ps : List Piece) (s rest : Text)
    → match_piece p s ≡ some rest
    → match_here (p ∷ ps) s ≡ match_here ps rest
unfolding match_here
match_step p ps s rest h = rw (match_here, h) refl

parenthesis : (s : Text) → match_here (exactly (bytes "(") ∷ []) (b'(' ∷ s) ≡ true
unfolding match_here match_piece has_prefix
parenthesis s = refl

-- A call by its name in either case, with blanks before its parenthesis.
match_call :
    (word ws s : Text)
    → All (λ c. is_blank c ≡ true) ws
    → match_here
        (any_case (to_lower word) ∷ spaces ∷ exactly (bytes "(") ∷ [])
        (word ++ (ws ++ (b'(' ∷ s)))
      ≡ true
match_call word ws s h =
    match_step _ _ _ _ (any_case-append word (ws ++ (b'(' ∷ s)))
    ∙ match_step _ _ _ _ (spaces-append ws s h)
    ∙ parenthesis s

abbrev call_of : Text → List Piece
call_of name = any_case name ∷ spaces ∷ exactly (bytes "(") ∷ []

blocked_by-none :
    (i : ℕ) (ps : List (List Piece)) (content : Text)
    → blocked_by i ps content ≡ none
    → All (λ p. match_string p content ≡ false) ps
unfolding blocked_by
blocked_by-none i [] content h = tt
blocked_by-none i (p ∷ ps) content h = elim (Bool-cases (match_string p content)) [
  | inl e ↦ absurd (ground arith)
  | inr e ↦ (e, blocked_by-none (i + 1) ps content (ground arith))
]

passes :
    (content : Text)
    → validate_script_content content ≡ none
    → (blocked_by 0 blocked_patterns content ≡ none) × (length content ≤ max_script_code_size)
unfolding validate_script_content
passes content h = elim (Option-cases (blocked_by 0 blocked_patterns content)) [
  | inl e ↦ (e, ground arith)
  | inr (i, e) ↦ absurd (ground arith)
]

-- A script that is accepted is within the limit of the size, and nowhere contains `eval` or `document.write`, in
-- whatever case, followed by an opening parenthesis with nothing but blanks of `\s` (space, tab, line feed, form
-- feed, carriage return) in between. Other ways to call them are not looked at.
pub validate_script_content-call :
    (content : Text)
    → validate_script_content content ≡ none
    → (length content ≤ max_script_code_size)
      × ((before word ws after : Text)
          → All (λ c. is_blank c ≡ true) ws
          → (to_lower word ≡ bytes "eval") ⊎ (to_lower word ≡ bytes "document.write")
          → content ≢ before ++ (word ++ (ws ++ (b'(' ∷ after))))
validate_script_content-call content h =
    (let (clear, size) = passes content h in
      let patterns = blocked_by-none 0 blocked_patterns content clear in
      (
        size,
        λ before word ws after blanks called same.
            (let found =
                match_string-append (any_case (to_lower word) ∷ spaces ∷ exactly (bytes "(") ∷ [])
                  before _ (match_call word ws after blanks) in
              elim called [
                | inl k ↦
                    true-false (match_string (call_of (to_lower word)) content)
                      (ap (λ p. match_string p content) (ap call_of k) ∙ patterns.0)
                      (ap (match_string (call_of (to_lower word))) same ∙ found)
                | inr k ↦
                    true-false (match_string (call_of (to_lower word)) content)
                      (ap (λ p. match_string p content) (ap call_of k) ∙ patterns.1.0)
                      (ap (match_string (call_of (to_lower word))) same ∙ found)
              ]),
      ))
