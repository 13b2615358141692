-- ===== src/Cluster/Tests.antt =====
-- lsengine/internal/cluster/cluster.go: two workers, and the theorems applied.
use lsengine_js.Base.{
  ℕ, ◌+◌, ◌≡◌, refl, true, false, Option, none, some, [], ◌∷◌, arith, if◌then◌else◌, ◌==◌,
  get_elem?, ltb,
}
use lsengine_js.Cluster.{
  ClusterManager, unlocked, new_cluster_manager, lock, r_lock, set_worker, kill_worker,
  replace_worker, restart_worker, monitor_loop, monitor_tick, start_loop, start_workers, kill_all,
  stop,
}
use lsengine_js.Cluster.Locks.{monitor_tick-any_dead, restart_worker-workers}

program : Unit {0}
unfolding lock r_lock set_worker kill_worker replace_worker restart_worker monitor_loop monitor_tick
    start_loop start_workers kill_all stop
program = tt

abbrev spawn : ℕ → Option ℕ
spawn i = some (100 + i)

abbrev two_workers : ClusterManager
two_workers = record new_cluster_manager { workers = some 100 ∷ some 101 ∷ [] }

workers_start_and_stop :
    (start_workers spawn 2 new_cluster_manager ≡ some (two_workers, true))
    × (start_workers (λ i. none) 2 new_cluster_manager ≡ some (new_cluster_manager, false))
    × (stop two_workers
        ≡ some (record { workers = []; mu = unlocked; killed = 101 ∷ 100 ∷ []; stopped = true }))
unfolding program
workers_start_and_stop = (refl, refl, refl)

monitor_tick-any_dead_example : monitor_tick spawn (λ pid. ltb pid 101) two_workers ≡ none
monitor_tick-any_dead_example = monitor_tick-any_dead spawn (λ pid. ltb pid 101) two_workers refl

restart_worker-workers_example :
    (done : ClusterManager) × (restart_worker spawn 1 two_workers ≡ some done)
    × (done.mu ≡ unlocked)
    × ((j : ℕ)
        → get_elem? done.workers j
          ≡ (if 1 == j then some (some 101) else get_elem? two_workers.workers j))
restart_worker-workers_example =
    restart_worker-workers spawn 1 101 two_workers refl (omega arith) refl
