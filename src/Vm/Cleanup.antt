-- ===== src/Vm/Cleanup.antt =====
-- lsengine/internal/vm/vm_pool.go, `cleanup`: which machines a round of the ticker evicts.
use lsengine_js.Base.{
  length-append_end, sym, ◌∙◌, ℕ, zero, suc, ◌+◌, ◌/◌, ◌≤◌, ◌<◌, ◌≡◌, refl, ap, inl, inr, Bool,
  true, false, List, [], ◌∷◌, ◌++◌, if◌then◌else◌, ltb, length, All, arith, Bool-cases,
}
use lsengine_js.Vm.{
  GojaVm, GojaPool, evict, is_stale, clean_first, cleanup_one, cleanup_loop, cleanup,
}

-- How many machines pass a test.
abbrev pub tally : (GojaVm → Bool) → List GojaVm → ℕ
tally test [] = 0
tally test (v ∷ vms) = if test v then suc (tally test vms) else tally test vms

tally-append_end :
    (test : GojaVm → Bool) (vms : List GojaVm) (v : GojaVm)
    → tally test (vms ++ (v ∷ [])) ≡ tally test (v ∷ vms)
tally-append_end test [] v = refl
tally-append_end test (w ∷ vms) v = ground (arith, tally-append_end test vms v)

clean_first-max_size :
    (now : ℕ) (vms : List GojaVm) (p : GojaPool) → (clean_first now vms p).max_size ≡ p.max_size
clean_first-max_size now [] p = refl
clean_first-max_size now (v ∷ vms) p = ground arith

-- What one machine less, or in another place, leaves.
abbrev Kept : (GojaVm → Bool) → List GojaVm → ℕ → GojaPool → Type 0
Kept test vms evicted q =
    (tally test q.vms ≡ tally test vms)
    × (length q.vms + q.evicted ≡ length vms + evicted)
    × (length q.vms ≤ length vms)

module _ (test : GojaVm → Bool) (now : ℕ)
    (fresh : (v : GojaVm) → test v ≡ true → is_stale now v ≡ false) where
  clean_first-Kept :
      (vms : List GojaVm) (p : GojaPool)
      → p.vms ≡ vms
      → length vms ≤ p.max_size
      → Kept test vms p.evicted (clean_first now vms p)
  clean_first-Kept [] p e fits = rw e (refl, refl, omega arith)
  clean_first-Kept (v ∷ vms) p e fits = elim (Bool-cases (is_stale now v)) [
    | inl s ↦ elim (Bool-cases (test v)) [
      | inl t ↦ absurd (ground (arith, fresh v t))
      | inr t ↦ rw (s, t) (refl, omega arith, omega arith)
    ]
    | inr s ↦
        (let room : ltb (length vms) p.max_size ≡ true = ground (arith, fits) in
          rw (s, room)
            (
              tally-append_end test vms v,
              omega (arith, length-append_end vms v),
              omega (arith, length-append_end vms v),
            ))
  ]

  cleanup_loop-Kept :
      (fuel i : ℕ) (p : GojaPool)
      → length p.vms ≤ p.max_size
      → Kept test p.vms p.evicted (cleanup_loop fuel now i p)
  unfolding cleanup_loop
  cleanup_loop-Kept zero i p fits = (refl, refl, omega arith)
  cleanup_loop-Kept (suc fuel) i p fits = elim (Bool-cases (ltb i (length p.vms))) [
    | inl e ↦
        (let one = clean_first-Kept p.vms p refl fits in
          let same = clean_first-max_size now p.vms p in
          let more =
            cleanup_loop-Kept fuel (suc i) (cleanup_one now p) (omega (arith, one.2, fits, same)) in
          rw (cleanup_loop, e)
            (more.0 ∙ one.0, omega (arith, more.1, one.1), omega (arith, more.2, one.2)))
    | inr e ↦ rw (cleanup_loop, e) (refl, refl, omega arith)
  ]

  -- A cleanup that no other call interrupts, of a pool within its channel, loses no machine: as many as before
  -- pass any test that only machines that are not stale pass, and the others that are gone were counted as
  -- evicted.
  pub cleanup-keeps :
      (p : GojaPool)
      → length p.vms ≤ p.max_size
      → (tally test (cleanup now p).vms ≡ tally test p.vms)
        × (length (cleanup now p).vms + (cleanup now p).evicted ≡ length p.vms + p.evicted)
        × (length (cleanup now p).vms ≤ length p.vms)
  unfolding cleanup
  cleanup-keeps p fits = cleanup_loop-Kept (length p.vms) 0 p fits

abbrev pub AllStale : ℕ → List GojaVm → Type 0
AllStale now vms = All (λ v. is_stale now v ≡ true) vms

cleanup_loop-end :
    (now fuel i : ℕ) (p : GojaPool) → length p.vms ≤ i → cleanup_loop fuel now i p ≡ p
unfolding cleanup_loop
cleanup_loop-end now zero i p h = refl
cleanup_loop-end now (suc fuel) i p h =
    (let e : ltb i (length p.vms) ≡ false = ground arith in rw (cleanup_loop, e) refl)

cleanup_loop-round :
    (now fuel i : ℕ) (p : GojaPool)
    → i < length p.vms
    → cleanup_loop (suc fuel) now i p ≡ cleanup_loop fuel now (suc i) (cleanup_one now p)
unfolding cleanup_loop
cleanup_loop-round now fuel i p h =
    (let e : ltb i (length p.vms) ≡ true = ground arith in rw (cleanup_loop, e) refl)

-- The rounds stop where the count meets the machines that are left.
halving :
    (now fuel i : ℕ) (vms : List GojaVm) (p : GojaPool)
    → p.vms ≡ vms
    → AllStale now vms
    → length vms ≤ i + fuel
    → i ≤ suc (length vms)
    → length (cleanup_loop fuel now i p).vms ≡ (i + length vms) / 2
unfolding cleanup_loop
halving now zero i vms p e s f h = rw e (omega arith)
halving now (suc fuel) i [] p e s f h =
    rw (cleanup_loop-end now (suc fuel) i p (omega (arith, ap (λ vms. length vms) e)))
      (rw e (omega arith))
halving now (suc fuel) i (v ∷ vms) p e s f h = elim (Bool-cases (ltb i (suc (length vms)))) [
  | inl k ↦
      (let first : cleanup_one now p ≡ evict (record p { vms = vms }) =
          rw (cleanup_one, e, clean_first, s.0) refl in
        let rest =
          halving now fuel (suc i) vms (evict (record p { vms = vms })) refl s.1 (omega (arith, f))
            (ground arith) in
        let round = cleanup_loop-round now fuel i p (ground (arith, ap (λ vms. length vms) e)) in
        rw (round, first) (omega (arith, rest)))
  | inr k ↦
      (let stop = cleanup_loop-end now (suc fuel) i p (ground (arith, ap (λ vms. length vms) e)) in
        rw stop (ground (arith, ap (λ vms. length vms) e)))
]

-- A cleanup of a pool whose machines are all stale evicts only half of them, rounded up.
pub cleanup-AllStale :
    (now : ℕ) (p : GojaPool) → AllStale now p.vms → length (cleanup now p).vms ≡ length p.vms / 2
unfolding cleanup
cleanup-AllStale now p s =
    omega (arith, halving now (length p.vms) 0 p.vms p refl s (omega arith) (omega arith))

clean_first-length :
    (now : ℕ) (vms : List GojaVm) (p : GojaPool)
    → p.vms ≡ vms
    → length (clean_first now vms p).vms ≤ length vms
clean_first-length now [] p e = rw e (omega arith)
clean_first-length now (v ∷ vms) p e = ground (arith, length-append_end vms v)

enough_fuel :
    (now f g i : ℕ) (p : GojaPool)
    → length p.vms ≤ i + f
    → length p.vms ≤ i + g
    → cleanup_loop f now i p ≡ cleanup_loop g now i p
enough_fuel now zero g i p h k =
    cleanup_loop-end now 0 i p (omega (arith, h))
    ∙ sym (cleanup_loop-end now g i p (omega (arith, h)))
enough_fuel now (suc f) zero i p h k =
    cleanup_loop-end now (suc f) i p (omega (arith, k))
    ∙ sym (cleanup_loop-end now 0 i p (omega (arith, k)))
enough_fuel now (suc f) (suc g) i p h k = elim (Bool-cases (ltb i (length p.vms))) [
  | inl e ↦
      (let shorter = clean_first-length now p.vms p refl in
        cleanup_loop-round now f i p (ground arith)
        ∙ enough_fuel now f g (suc i) (cleanup_one now p) (omega (arith, h, shorter))
            (omega (arith, k, shorter))
        ∙ sym (cleanup_loop-round now g i p (ground arith)))
  | inr e ↦
      cleanup_loop-end now (suc f) i p (ground arith)
      ∙ sym (cleanup_loop-end now (suc g) i p (ground arith))
]

-- The inner loop of the cleanup ends after at most one round for each machine: any further fuel changes
-- nothing.
pub cleanup_loop-cleanup :
    (now extra : ℕ) (p : GojaPool) → cleanup_loop (length p.vms + extra) now 0 p ≡ cleanup now p
unfolding cleanup
cleanup_loop-cleanup now extra p =
    enough_fuel now (length p.vms + extra) (length p.vms) 0 p (omega arith) (omega arith)
