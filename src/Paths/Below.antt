-- ===== src/Paths/Below.antt =====
-- Go's package path/filepath: parts without `..` stay below where they begin.
use mathlib.Core.List.{append_assoc, append-nil}
use lsengine_js.Base.{
  ℕ, ◌≡◌, ◌≢◌, refl, sym, ◌∙◌, ap, subst, ◌⊎◌, Bool, true, false, none, some, List, [], ◌∷◌, ◌++◌,
  arith, if◌then◌else◌, ◌==◌, All, All-append, Bool-cases, Option-cases, inl, inr, Text, bytes,
  text_eq, has_prefix, is_empty, NotByte, split, split-NotByte, join_with,
}
use lsengine_js.Paths.{
  drop_last, last?, go_up, clean_part, clean_parts, join_slash, from_root, clean,
}
use lsengine_js.Paths.Clean.{IsName, drop_last-All}
use lsengine_js.Paths.Inside.{clean_parts-names, split-from_root, clean_skip}

abbrev pub NotUp : Text → Type 0
NotUp p = text_eq p (bytes "..") ≡ false

clean_parts-append :
    (rooted : Bool) (kept ps qs : List Text)
    → clean_parts rooted kept (ps ++ qs) ≡ clean_parts rooted (clean_parts rooted kept ps) qs
unfolding clean_parts
clean_parts-append rooted kept [] qs = refl
clean_parts-append rooted kept (p ∷ ps) qs =
    clean_parts-append rooted (clean_part rooted kept p) ps qs

clean_parts-root :
    (rs : List Text) → All IsName rs → clean_parts true [] (split b'/' (from_root rs)) ≡ rs
clean_parts-root [] h =
    unfold clean_parts in
    unfold clean_part in
    unfold from_root in unfold join_slash in unfold join_with in unfold split in refl
clean_parts-root (r ∷ rs) h =
    ap (clean_parts true []) (split-from_root r rs h)
    ∙ clean_skip (r ∷ rs)
    ∙ clean_parts-names [] (r ∷ rs) h

-- Parts without `..` only add names.
clean_parts-NotUp :
    (kept ps : List Text)
    → All (NotByte b'/') ps
    → All NotUp ps
    → (rest : List Text) × All IsName rest × (clean_parts true kept ps ≡ kept ++ rest)
unfolding clean_parts clean_part
clean_parts-NotUp kept [] n u = ([], tt, sym (append-nil kept))
clean_parts-NotUp kept (p ∷ ps) n u = elim (Bool-cases (is_empty p)) [
  | inl e ↦ rw (clean_part, e) (clean_parts-NotUp kept ps n.1 u.1)
  | inr e ↦ elim (Bool-cases (text_eq p (bytes "."))) [
    | inl f ↦ rw (clean_part, e, f) (clean_parts-NotUp kept ps n.1 u.1)
    | inr f ↦
        (let (rest, names, same) = clean_parts-NotUp (kept ++ (p ∷ [])) ps n.1 u.1 in
          let here : clean_part true kept p ≡ kept ++ (p ∷ []) = rw (clean_part, e, f, u.0) refl in
          (
            p ∷ rest,
            ((e, n.0, f, u.0), names),
            ap (λ k. clean_parts true k ps) here ∙ same ∙ append_assoc kept (p ∷ []) rest,
          ))
  ]
]

split-cons : (c : ℕ) (a : Text) → (p : Text) × (ps : List Text) × (split c a ≡ p ∷ ps)
unfolding split
split-cons c [] = ([], [], refl)
split-cons c (x ∷ a) =
    (let (p, ps, e) = split-cons c a in
      elim (Bool-cases (x == c)) [
        | inl f ↦ ([], split c a, rw f refl)
        | inr f ↦ (x ∷ p, ps, rw (f, e) refl)
      ])

split-concat : (c : ℕ) (a s : Text) → split c (a ++ (c ∷ s)) ≡ split c a ++ split c s
unfolding split
split-concat c [] s = ground arith
split-concat c (x ∷ a) s =
    (let (p, ps, e) = split-cons c a in
      elim (Bool-cases (x == c)) [
        | inl f ↦ rw (f, split-concat c a s) refl
        | inr f ↦ rw (f, split-concat c a s, e) refl
      ])

last?-All {ℓ κ} :
    {A : Type ℓ} (P : A → Type κ) (xs : List A) (x : A) → All P xs → last? xs ≡ some x → P x
unfolding last?
last?-All P [] x h e = absurd (ground arith)
last?-All P (y ∷ []) x h e = subst P (ground arith) h.0
last?-All P (y ∷ z ∷ xs) x h e = last?-All P (z ∷ xs) x h.1 e

-- The parts of a relative path: names, after the `..` that it cannot take back.
abbrev pub IsRelative : List Text → Type 0
IsRelative kept = All IsName kept ⊎ ((rest : List Text) × (kept ≡ bytes ".." ∷ rest))

last?-some : (q : Text) (rest : List Text) → last? (q ∷ rest) ≢ none
unfolding last?
last?-some q [] e = ground arith
last?-some q (r ∷ rest) e = last?-some r rest e

kept_name :
    (kept : List Text) (p : Text) → IsRelative kept → IsName p → IsRelative (kept ++ (p ∷ []))
kept_name kept p (inl h) n = inl (All-append IsName kept (p ∷ []) h (n, tt))
kept_name kept p (inr (rest, e)) n = inr (rest ++ (p ∷ []), ap (λ k. k ++ (p ∷ [])) e)

go_up-head : (rest : List Text) → IsRelative (go_up false (bytes ".." ∷ rest))
unfolding go_up last? text_eq drop_last
go_up-head [] = inr (bytes ".." ∷ [], refl)
go_up-head (q ∷ rest) = elim (Option-cases (last? (q ∷ rest))) [
  | inl e ↦ rw (go_up, last?, e) (inr (q ∷ rest, absurd (last?-some q rest e)))
  | inr (p, e) ↦ elim (Bool-cases (text_eq p (bytes ".."))) [
    | inl f ↦ rw (go_up, last?, e, f) (inr ((q ∷ rest) ++ (bytes ".." ∷ []), refl))
    | inr f ↦ rw (go_up, last?, e, f) (inr (drop_last (q ∷ rest), refl))
  ]
]

go_up-IsRelative : (kept : List Text) → IsRelative kept → IsRelative (go_up false kept)
unfolding go_up
go_up-IsRelative kept (inl h) = elim (Option-cases (last? kept)) [
  | inl e ↦ rw (go_up, e) (inr ([], refl))
  | inr (p, e) ↦ rw (go_up, e, (last?-All IsName kept p h e).3) (inl (drop_last-All IsName kept h))
]
go_up-IsRelative kept (inr (rest, e)) =
    subst (λ k. IsRelative (go_up false k)) (sym e) (go_up-head rest)

clean_part-IsRelative :
    (kept : List Text) (p : Text)
    → IsRelative kept
    → NotByte b'/' p
    → IsRelative (clean_part false kept p)
unfolding clean_part
clean_part-IsRelative kept p h n = elim (Bool-cases (is_empty p)) [
  | inl e ↦ rw (clean_part, e) h
  | inr e ↦ elim (Bool-cases (text_eq p (bytes "."))) [
    | inl f ↦ rw (clean_part, e, f) h
    | inr f ↦ elim (Bool-cases (text_eq p (bytes ".."))) [
      | inl g ↦ rw (clean_part, e, f, g) (go_up-IsRelative kept h)
      | inr g ↦ rw (clean_part, e, f, g) (kept_name kept p h (e, n, f, g))
    ]
  ]
]

clean_parts-IsRelative :
    (kept ps : List Text)
    → IsRelative kept
    → All (NotByte b'/') ps
    → IsRelative (clean_parts false kept ps)
unfolding clean_parts
clean_parts-IsRelative kept [] h n = h
clean_parts-IsRelative kept (p ∷ ps) h n =
    clean_parts-IsRelative (clean_part false kept p) ps (clean_part-IsRelative kept p h n.0) n.1

pub clean-IsRelative :
    (path : Text)
    → has_prefix path (bytes "/") ≡ false
    → (kept : List Text) × IsRelative kept
      × (clean path ≡ (if is_empty (join_slash kept) then bytes "." else join_slash kept))
unfolding clean
clean-IsRelative path h = (
  clean_parts false [] (split b'/' path),
  clean_parts-IsRelative [] (split b'/' path) (inl tt) (split-NotByte b'/' path),
  rw h refl,
)

joined-prefix :
    (rs : List Text) (s : Text) → has_prefix (from_root rs ++ (b'/' ∷ s)) (bytes "/") ≡ true
unfolding from_root has_prefix
joined-prefix rs s = refl

-- A path below a directory, and below another one in it, is below the directory where it has no `..`.
pub clean-below :
    (rs subs : List Text) (sub c : Text)
    → All IsName rs
    → All IsName subs
    → split b'/' sub ≡ subs
    → All NotUp (split b'/' c)
    → (rest : List Text) × All IsName rest
      × (clean (from_root rs ++ (b'/' ∷ (sub ++ (b'/' ∷ c)))) ≡ from_root (rs ++ rest))
unfolding clean
clean-below rs subs sub c h k s u =
    (let parts : split b'/' (from_root rs ++ (b'/' ∷ (sub ++ (b'/' ∷ c))))
          ≡ split b'/' (from_root rs) ++ (subs ++ split b'/' c) =
        split-concat b'/' (from_root rs) (sub ++ (b'/' ∷ c))
        ∙ ap (λ l. split b'/' (from_root rs) ++ l)
            (split-concat b'/' sub c ∙ ap (λ l. l ++ split b'/' c) s) in
      let (rest, names, same) =
        clean_parts-NotUp (rs ++ subs) (split b'/' c) (split-NotByte b'/' c) u in
      (
        subs ++ rest,
        All-append IsName subs rest k names,
        rw (joined-prefix rs (sub ++ (b'/' ∷ c))) (
            ap (λ l. from_root (clean_parts true [] l)) parts
            ∙ ap from_root (
                clean_parts-append true [] (split b'/' (from_root rs)) (subs ++ split b'/' c)
                ∙ ap (λ k. clean_parts true k (subs ++ split b'/' c)) (clean_parts-root rs h)
                ∙ clean_parts-append true rs subs (split b'/' c)
                ∙ ap (λ k. clean_parts true k (split b'/' c)) (clean_parts-names rs subs k)
                ∙ same
                ∙ append_assoc rs subs rest)),
      ))
