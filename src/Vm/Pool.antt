-- ===== src/Vm/Pool.antt =====
-- lsengine/internal/vm/vm_pool.go: how many machines the pool keeps, and which ones.
use lsengine_js.Base.{
  length-append_end, ℕ, zero, suc, ◌≤◌, ◌≡◌, refl, inl, inr, List, [], ◌∷◌, ◌++◌, ltb, length,
  subst, sym, ap, ◌∙◌, All, All-append, arith, Bool-cases,
}
use lsengine_js.Vm.{
  GojaVm, GojaPool, create_vm, take_waiting, clean_first, get_vm, put_vm, evict, is_stale,
  cleanup_loop, cleanup,
}

-- The calls of the pool.
pub data PoolCall : Type 0 where
  get : ℕ → PoolCall
  put : GojaVm → PoolCall
  tick : ℕ → PoolCall

unfoldable pub apply : PoolCall → GojaPool → GojaPool
unfolding get_vm put_vm cleanup
apply (get now) p = (get_vm now p).1
apply (put v) p = put_vm v p
apply (tick now) p = cleanup now p

unfoldable pub apply_all : List PoolCall → GojaPool → GojaPool
unfolding apply
apply_all [] p = p
apply_all (c ∷ cs) p = apply_all cs (apply c p)

-- The machine was taken out of the channel so many times since it was made.
pub data Lived : ℕ → GojaVm → Type 0 where
  made : (now : ℕ) → Lived 0 (create_vm now)
  taken :
      (n now : ℕ) (v : GojaVm) (vms : List GojaVm) (p : GojaPool) (w : GojaVm)
      → p.vms ≡ v ∷ vms
      → Lived n v
      → w ≡ (get_vm now p).0
      → Lived (suc n) w

pub Lived-usage_count : (n : ℕ) (v : GojaVm) → Lived n v → v.usage_count ≡ n
unfolding get_vm
Lived-usage_count n v (made now) = refl
Lived-usage_count n x (taken m now v vms p w e h k) =
    (let before = Lived-usage_count m v h in
      let after : (get_vm now p).0.usage_count ≡ suc m = rw (get_vm, e) (omega (arith, before)) in
      ap (λ x. x.usage_count) k ∙ after)

-- A machine that was taken out of the channel at most ten thousand times.
abbrev pub Unworn : GojaVm → Type 0
Unworn v = (n : ℕ) → Lived n v → n ≤ 10000

pub usage_count-Unworn : (v : GojaVm) → v.usage_count ≤ 10000 → Unworn v
usage_count-Unworn v h n l = omega (arith, h, Lived-usage_count n v l)

abbrev IsFit : ℕ → List GojaVm → Type 0
IsFit m vms = (length vms ≤ m) × All Unworn vms

-- The pool fits its channel and holds no worn-out machine.
pub record IsHealthy (m : ℕ) (p : GojaPool) : Type 0 where
  pub size : p.max_size ≡ m
  pub fit : IsFit m p.vms

IsFit-append :
    (m : ℕ) (vms : List GojaVm) (v : GojaVm)
    → IsFit m vms
    → suc (length vms) ≤ m
    → Unworn v
    → IsFit m (vms ++ (v ∷ []))
IsFit-append m vms v h k w =
    (rw (length-append_end vms v) k, All-append Unworn vms (v ∷ []) h.1 (w, tt))

clean_first-IsHealthy :
    (m now : ℕ) (vms : List GojaVm) (p : GojaPool)
    → p.max_size ≡ m
    → IsFit m vms
    → p.vms ≡ vms
    → IsHealthy m (clean_first now vms p)
clean_first-IsHealthy m now [] p e h k = record { size = e; fit = rw k h }
clean_first-IsHealthy m now (v ∷ vms) p e h k = elim (Bool-cases (is_stale now v)) [
  | inl s ↦ rw s (record { size = e; fit = (omega (arith, h.0), h.1.1) })
  | inr s ↦ elim (Bool-cases (ltb (length vms) p.max_size)) [
    | inl room ↦
        rw (s, room)
          (record { size = e; fit = IsFit-append m vms v (omega (arith, h.0), h.1.1) h.0 h.1.0 })
    | inr full ↦ rw (s, full) (record { size = e; fit = (omega (arith, h.0), h.1.1) })
  ]
]

cleanup_loop-IsHealthy :
    (m fuel now i : ℕ) (p : GojaPool) → IsHealthy m p → IsHealthy m (cleanup_loop fuel now i p)
unfolding cleanup_loop
cleanup_loop-IsHealthy m zero now i p h = h
cleanup_loop-IsHealthy m (suc fuel) now i p h = elim (Bool-cases (ltb i (length p.vms))) [
  | inl e ↦
      rw (cleanup_loop, e)
        (cleanup_loop-IsHealthy m fuel now (suc i) _
          (clean_first-IsHealthy m now p.vms p h.size h.fit refl))
  | inr e ↦ rw (cleanup_loop, e) h
]

take_waiting-IsHealthy :
    (m now : ℕ) (vms : List GojaVm) (p : GojaPool)
    → p.max_size ≡ m
    → IsFit m vms
    → p.vms ≡ vms
    → IsHealthy m (take_waiting now vms p).1
take_waiting-IsHealthy m now [] p e h k = record { size = e; fit = rw k h }
take_waiting-IsHealthy m now (v ∷ vms) p e h k = record {
  size = e;
  fit = (omega (arith, h.0), h.1.1);
}

put_vm-IsHealthy : (m : ℕ) (v : GojaVm) (p : GojaPool) → IsHealthy m p → IsHealthy m (put_vm v p)
unfolding put_vm
put_vm-IsHealthy m v p h = elim (Bool-cases (ltb 10000 v.usage_count)) [
  | inl e ↦
      (let k : put_vm v p ≡ evict p = ground arith in
        subst (IsHealthy m) (sym k) (record { size = h.size; fit = h.fit }))
  | inr e ↦ elim (Bool-cases (ltb (length p.vms) p.max_size)) [
    | inl f ↦
        (let k : put_vm v p ≡ record p { vms = p.vms ++ (v ∷ []) } = ground arith in
          subst (IsHealthy m) (sym k) (record {
            size = h.size;
            fit =
                IsFit-append m p.vms v h.fit (ground (arith, h.size))
                  (usage_count-Unworn v (ground arith));
          }))
    | inr f ↦
        (let k : put_vm v p ≡ evict p = ground arith in
          subst (IsHealthy m) (sym k) (record { size = h.size; fit = h.fit }))
  ]
]

apply-IsHealthy : (m : ℕ) (c : PoolCall) (p : GojaPool) → IsHealthy m p → IsHealthy m (apply c p)
unfolding apply get_vm cleanup
apply-IsHealthy m (get now) p h = take_waiting-IsHealthy m now p.vms p h.size h.fit refl
apply-IsHealthy m (put v) p h = put_vm-IsHealthy m v p h
apply-IsHealthy m (tick now) p h = cleanup_loop-IsHealthy m (length p.vms) now 0 p h

-- Any sequence of calls keeps the pool within the size of its channel, with no machine that was taken out of
-- the channel more than ten thousand times since it was made.
pub apply_all-IsHealthy :
    (m : ℕ) (calls : List PoolCall) (p : GojaPool) → IsHealthy m p → IsHealthy m (apply_all calls p)
unfolding apply_all
apply_all-IsHealthy m [] p h = h
apply_all-IsHealthy m (c ∷ cs) p h = apply_all-IsHealthy m cs (apply c p) (apply-IsHealthy m c p h)
