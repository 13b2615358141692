-- ===== src/Jsondb/Numbers.antt =====
-- lsengine/internal/jsondb/engine.go: the identifiers of documents with different numbers differ.
use native.Mathlib.Nat.{div-add-mod'}
use lsengine_js.Base.{
  ℕ, zero, suc, ◌+◌, ◌-◌, ◌*◌, ◌/◌, ◌%◌, ◌<◌, ◌≡◌, sym, ◌∙◌, ap, inl, inr, [], ◌∷◌, ◌++◌, arith,
  ltb, Bool-cases, Text, bytes, if_true, if_false,
}
use lsengine_js.Jsondb.Engine.{digits_from, decimal, document_id}

abbrev number_of : ℕ → Text → ℕ
number_of n [] = n
number_of n (c ∷ s) = number_of (n * 10 + (c - 48)) s

number_of-digits_from :
    (fuel n : ℕ) (acc : Text) → n < fuel → number_of 0 (digits_from fuel n acc) ≡ number_of n acc
unfolding digits_from
number_of-digits_from zero n acc h = absurd (omega arith)
number_of-digits_from (suc fuel) n acc h = elim (Bool-cases (ltb n 10)) [
  | inl e ↦ ap (number_of 0) (if_true _ _ _ e) ∙ ap (λ k. number_of k acc) (ground (arith, e))
  | inr e ↦
      ap (number_of 0) (if_false _ _ _ e)
      ∙ number_of-digits_from fuel (n / 10) ((b'0' + n % 10) ∷ acc) (ground (arith, e, h))
      ∙ ap (λ k. number_of k acc) (ground (arith, div-add-mod' n 10))
]

number_of-decimal : (n : ℕ) → number_of 0 (decimal n) ≡ n
unfolding decimal
number_of-decimal n = number_of-digits_from (suc n) n [] (omega arith)

append-cancel : (s t u : Text) → s ++ t ≡ s ++ u → t ≡ u
append-cancel [] t u h = h
append-cancel (c ∷ s) t u h = append-cancel s t u (ground (arith, h))

pub document_id-number :
    (c : Text) (stamp m n : ℕ) → document_id c stamp m ≡ document_id c stamp n → m ≡ n
unfolding document_id
document_id-number c stamp m n h =
    (let tails = append-cancel c _ _ h in
      let numbers =
        append-cancel (bytes "_") _ _
          (append-cancel (decimal stamp) _ _ (append-cancel (bytes "_") _ _ tails)) in
      sym (number_of-decimal m) ∙ ap (number_of 0) numbers ∙ number_of-decimal n)
