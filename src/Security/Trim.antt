-- ===== src/Security/Trim.antt =====
-- lsengine/internal/security/security.go, the parts of an import that was cleaned.
use lsengine_js.Base.{
  if_true, if_false, true-false, ℕ, ◌≡◌, ◌≢◌, refl, sym, ◌∙◌, ap, subst, true, false, List, [], ◌∷◌,
  arith, if◌then◌else◌, ◌==◌, All, Bool-cases, inl, inr, Text, bytes, text_eq, text_eq_iff,
  has_prefix, is_empty, NotByte, split, split-join_with, join_with,
}
use lsengine_js.Paths.{clean, join_slash, from_root}
use lsengine_js.Paths.Clean.{IsName, clean-IsName}
use lsengine_js.Paths.Inside.{names-NotByte}
use lsengine_js.Paths.Below.{NotUp, IsRelative, clean-IsRelative}
use lsengine_js.Security.{trim_byte, clean_import}

NotUp-names : (ps : List Text) → All IsName ps → All NotUp ps
NotUp-names [] h = tt
NotUp-names (p ∷ ps) h = (h.0.3, NotUp-names ps h.1)

join_slash-first :
    (x : ℕ) (p : Text) (ps : List Text) → join_slash ((x ∷ p) ∷ ps) ≡ x ∷ join_slash (p ∷ ps)
unfolding join_slash join_with
join_slash-first x p [] = refl
join_slash-first x p (q ∷ ps) = refl

join_slash-up : (ps : List Text) → has_prefix (join_slash (bytes ".." ∷ ps)) (bytes "..") ≡ true
unfolding join_slash join_with has_prefix
join_slash-up [] = refl
join_slash-up (p ∷ ps) = refl

split-join_slash :
    (p : Text) (ps : List Text)
    → NotByte b'/' p
    → All (NotByte b'/') ps
    → split b'/' (join_slash (p ∷ ps)) ≡ p ∷ ps
unfolding join_slash
split-join_slash p ps h k = split-join_with b'/' p ps h k

trim_byte-other : (c x : ℕ) (s : Text) → x ≢ c → trim_byte c (x ∷ s) ≡ x ∷ s
trim_byte-other c x s h = ground arith

nothing-NotUp : All NotUp (split b'/' (trim_byte b'\\' (join_slash [])))
unfolding join_slash join_with split text_eq
nothing-NotUp = (refl, tt)

dot-NotUp : All NotUp (split b'/' (trim_byte b'\\' (trim_byte b'/' (bytes "."))))
unfolding split text_eq
dot-NotUp = (refl, tt)

not_up :
    (p : Text) (ps : List Text) → has_prefix (join_slash (p ∷ ps)) (bytes "..") ≡ false → NotUp p
not_up p ps h = elim (Bool-cases (text_eq p (bytes ".."))) [
  | inl e ↦ absurd (
      true-false _
        (subst (λ x. has_prefix (join_slash (x ∷ ps)) (bytes "..") ≡ false)
          ((text_eq_iff p (bytes "..")).0 e) h)
        (join_slash-up ps))
  | inr e ↦ e
]

nothing : trim_byte b'/' (join_slash []) ≡ join_slash []
unfolding join_slash join_with
nothing = refl

trim_byte-first : (c x : ℕ) (s : Text) → x ≡ c → trim_byte c (x ∷ s) ≡ s
trim_byte-first c x s h = ground arith

-- The parts of names that were joined, after a backslash at their begin is gone.
NotUp-trim_byte :
    (ps : List Text)
    → All IsName ps
    → has_prefix (trim_byte b'\\' (join_slash ps)) (bytes "..") ≡ false
    → All NotUp (split b'/' (trim_byte b'\\' (join_slash ps)))
NotUp-trim_byte [] h e = nothing-NotUp
NotUp-trim_byte ([] ∷ ps) h e = absurd (ground arith)
NotUp-trim_byte ((x ∷ p) ∷ ps) h e =
    (let first = join_slash-first x p ps in
      elim (Bool-cases (x == b'\\')) [
        | inl f ↦
            (let gone : trim_byte b'\\' (join_slash ((x ∷ p) ∷ ps)) ≡ join_slash (p ∷ ps) =
                ap (trim_byte b'\\') first
                ∙ trim_byte-first b'\\' x (join_slash (p ∷ ps)) (ground arith) in
              let parts = split-join_slash p ps h.0.1.1 (names-NotByte ps h.1) in
              subst (λ t. All NotUp (split b'/' t)) (sym gone)
                (subst (All NotUp) (sym parts) (
                  not_up p ps (subst (λ t. has_prefix t (bytes "..") ≡ false) gone e),
                  NotUp-names ps h.1,
                )))
        | inr f ↦
            (let stays : trim_byte b'\\' (join_slash ((x ∷ p) ∷ ps)) ≡ join_slash ((x ∷ p) ∷ ps) =
                ap (trim_byte b'\\') first
                ∙ trim_byte-other b'\\' x (join_slash (p ∷ ps)) (ground arith)
                ∙ sym first in
              let parts = split-join_slash (x ∷ p) ps h.0.1 (names-NotByte ps h.1) in
              subst (λ t. All NotUp (split b'/' t)) (sym stays)
                (subst (All NotUp) (sym parts) (NotUp-names ((x ∷ p) ∷ ps) h)))
      ])

join_slash-trim : (ps : List Text) → All IsName ps → trim_byte b'/' (join_slash ps) ≡ join_slash ps
join_slash-trim [] h = nothing
join_slash-trim ([] ∷ ps) h = absurd (ground arith)
join_slash-trim ((x ∷ p) ∷ ps) h =
    ap (trim_byte b'/') (join_slash-first x p ps)
    ∙ trim_byte-other b'/' x (join_slash (p ∷ ps)) h.0.1.0
    ∙ sym (join_slash-first x p ps)

root_trim : (ps : List Text) → trim_byte b'/' (from_root ps) ≡ join_slash ps
unfolding from_root
root_trim ps = refl

up_trim :
    (rest : List Text)
    → has_prefix (trim_byte b'\\' (trim_byte b'/' (join_slash (bytes ".." ∷ rest)))) (bytes "..")
      ≡ true
unfolding join_slash join_with has_prefix
up_trim [] = refl
up_trim (p ∷ rest) = refl

up_full : (rest : List Text) → is_empty (join_slash (bytes ".." ∷ rest)) ≡ false
unfolding join_slash join_with
up_full [] = refl
up_full (p ∷ rest) = refl

relative_import :
    (kept : List Text) (text : Text)
    → IsRelative kept
    → text ≡ (if is_empty (join_slash kept) then bytes "." else join_slash kept)
    → has_prefix (trim_byte b'\\' (trim_byte b'/' text)) (bytes "..") ≡ false
    → All NotUp (split b'/' (trim_byte b'\\' (trim_byte b'/' text)))
relative_import kept text relative same h = elim (Bool-cases (is_empty (join_slash kept))) [
  | inl e ↦
      subst (λ t. All NotUp (split b'/' (trim_byte b'\\' (trim_byte b'/' t))))
        (sym (same ∙ if_true _ _ _ e)) dot-NotUp
  | inr e ↦
      (let here = same ∙ if_false _ _ _ e in
        elim relative [
          | inl names ↦
              (let trimmed : trim_byte b'\\' (trim_byte b'/' text)
                    ≡ trim_byte b'\\' (join_slash kept) =
                  ap (trim_byte b'\\') (ap (trim_byte b'/') here ∙ join_slash-trim kept names) in
                subst (λ t. All NotUp (split b'/' t)) (sym trimmed)
                  (NotUp-trim_byte kept names
                    (subst (λ t. has_prefix t (bytes "..") ≡ false) trimmed h)))
          | inr (rest, up) ↦ absurd (
              true-false _
                (subst (λ t. has_prefix (trim_byte b'\\' (trim_byte b'/' t)) (bytes "..") ≡ false)
                  (here ∙ ap join_slash up) h)
                (up_trim rest))
        ])
]

-- An import that does not begin with `..` when it is cleaned has no `..` at all.
pub clean_import-NotUp :
    (raw : Text)
    → has_prefix (clean_import raw) (bytes "..") ≡ false
    → All NotUp (split b'/' (clean_import raw))
unfolding clean_import
clean_import-NotUp raw h = elim (Bool-cases (has_prefix raw (bytes "/"))) [
  | inl e ↦
      (let (ps, names, same) = clean-IsName raw e in
        let text : clean_import raw ≡ trim_byte b'\\' (join_slash ps) =
          ap (λ t. trim_byte b'\\' (trim_byte b'/' t)) same ∙ ap (trim_byte b'\\') (root_trim ps) in
        subst (λ t. All NotUp (split b'/' t)) (sym text)
          (NotUp-trim_byte ps names (subst (λ t. has_prefix t (bytes "..") ≡ false) text h)))
  | inr e ↦
      (let (kept, relative, same) = clean-IsRelative raw e in
        relative_import kept (clean raw) relative same h)
]
