-- ===== src/Vm/Tests.antt =====
-- lsengine/internal/vm/vm_pool.go: a pool of three machines, and the theorems applied.
use lsengine_js.Base.{◌+◌, ◌≤◌, ◌≡◌, refl, Bool, [], ◌∷◌, arith, length, ltb}
use lsengine_js.Vm.{
  GojaVm, GojaPool, create_vm, fill, init_goja_pool, get_vm, put_vm, clean_first, cleanup_loop,
  cleanup,
}
use lsengine_js.Vm.Pool.{
  get, put, tick, apply_all, apply, usage_count-Unworn, IsHealthy, apply_all-IsHealthy,
}
use lsengine_js.Vm.Cleanup.{tally, cleanup-keeps, cleanup-AllStale, cleanup_loop-cleanup}

program : Unit {0}
unfolding fill init_goja_pool get_vm put_vm cleanup_loop cleanup apply_all apply
program = tt

abbrev used : GojaVm
used = record { last_used = 9000; created_at = 8000; usage_count = 3 }

abbrev pool : GojaPool
pool = record {
  vms = create_vm 9000 ∷ create_vm 9000 ∷ used ∷ [];
  max_size = 3;
  created = 0;
  reused = 0;
  evicted = 0;
}

-- A machine that was never taken goes at the first cleanup, however new it is.
a_cleanup_runs :
    ((cleanup 9300 pool).vms ≡ used ∷ [])
    × ((cleanup 9300 pool).evicted ≡ 2)
    × (length (init_goja_pool 9000).vms ≡ 10)
    × ((get_vm 9100 pool).0 ≡ record { last_used = 9100; created_at = 9000; usage_count = 1 })
unfolding program
a_cleanup_runs = (refl, refl, refl, refl)

-- Where a call of Put filled the channel in the middle of a cleanup, the cleanup drops a machine that is not
-- stale, and does not count it.
a_machine_is_lost :
    (clean_first 9300
      (used ∷ used ∷ used ∷ used ∷ [])
      (record pool { vms = used ∷ used ∷ used ∷ used ∷ [] }))
    ≡ record pool { vms = used ∷ used ∷ used ∷ [] }
a_machine_is_lost = refl

pool-IsHealthy : IsHealthy 3 pool
pool-IsHealthy = record {
  size = refl;
  fit = (
    omega arith,
    (
      usage_count-Unworn (create_vm 9000) (omega arith),
      (
        usage_count-Unworn (create_vm 9000) (omega arith),
        (usage_count-Unworn used (omega arith), tt),
      ),
    ),
  );
}

apply_all-IsHealthy_example :
    IsHealthy 3 (apply_all (get 9100 ∷ put used ∷ tick 9300 ∷ put used ∷ []) pool)
apply_all-IsHealthy_example =
    apply_all-IsHealthy 3 (get 9100 ∷ put used ∷ tick 9300 ∷ put used ∷ []) pool pool-IsHealthy

abbrev was_used : GojaVm → Bool
was_used v = ltb 8999 v.last_used

cleanup-keeps_example :
    (tally was_used (cleanup 9300 pool).vms ≡ 1)
    × (length (cleanup 9300 pool).vms + (cleanup 9300 pool).evicted ≡ 3)
    × (length (cleanup 9300 pool).vms ≤ 3)
cleanup-keeps_example = cleanup-keeps was_used 9300 (λ v h. ground arith) pool (omega arith)

abbrev idle : GojaPool
idle = record {
  vms = create_vm 1 ∷ create_vm 1 ∷ create_vm 1 ∷ [];
  max_size = 3;
  created = 0;
  reused = 0;
  evicted = 0;
}

cleanup-AllStale_example : length (cleanup 9300 idle).vms ≡ 1
cleanup-AllStale_example = cleanup-AllStale 9300 idle (refl, (refl, (refl, tt)))

cleanup_loop-cleanup_example : cleanup_loop 8 9300 0 pool ≡ cleanup 9300 pool
cleanup_loop-cleanup_example = cleanup_loop-cleanup 9300 5 pool
