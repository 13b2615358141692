-- ===== src/Cluster.antt =====
-- lsengine/internal/cluster/cluster.go: the workers, and the lock that the monitor holds. A call of `sync` that
-- waits for ever is `none`. Starting a process and asking whether it lives are parameters.
mod Locks
mod Tests
use lsengine_js.Base.{
  ℕ, zero, suc, ◌+◌, ◌-◌, Bool, true, false, not, ◌&&◌, Option, none, some, List, [], ◌∷◌, ◌++◌,
  if◌then◌else◌, ◌==◌, length, leb,
}

-- A `sync.RWMutex`: its readers, and whether a writer has it.
pub record RwMutex : Type 0 where
  pub readers : ℕ
  pub writing : Bool

abbrev pub unlocked : RwMutex
unlocked = record { readers = 0; writing = false }

-- A process is its number; a worker may be nil. `killed` are the processes that were sent a kill.
pub record ClusterManager : Type 0 where
  pub workers : List (Option ℕ)
  pub mu : RwMutex
  pub killed : List ℕ
  pub stopped : Bool

abbrev pub new_cluster_manager : ClusterManager
new_cluster_manager = record { workers = []; mu = unlocked; killed = []; stopped = false }

-- `Lock` waits for every reader, and `RLock` for a writer.
unfoldable pub lock : RwMutex → Option RwMutex
lock mu = if mu.readers == 0 && not mu.writing then some (record mu { writing = true }) else none

unfoldable pub r_lock : RwMutex → Option RwMutex
r_lock mu = if mu.writing then none else some (record mu { readers = mu.readers + 1 })

abbrev pub unlock : RwMutex → RwMutex
unlock mu = record mu { writing = false }

abbrev pub r_unlock : RwMutex → RwMutex
r_unlock mu = record mu { readers = mu.readers - 1 }

unfoldable pub set_worker : ℕ → ℕ → List (Option ℕ) → List (Option ℕ)
set_worker i pid [] = []
set_worker zero pid (w ∷ workers) = some pid ∷ workers
set_worker (suc i) pid (w ∷ workers) = w ∷ set_worker i pid workers

-- `if workers[index] != nil { workers[index].Kill() }`
unfoldable pub kill_worker : ℕ → List (Option ℕ) → List ℕ → List ℕ
kill_worker i [] killed = killed
kill_worker zero (none ∷ workers) killed = killed
kill_worker zero (some pid ∷ workers) killed = pid ∷ killed
kill_worker (suc i) (w ∷ workers) killed = kill_worker i workers killed

-- `start i` is the process that `exec.Command` starts for worker `i`, if it does.
module _ (start : ℕ → Option ℕ) where
  -- The body of `restartWorker`, between its lock and its unlock.
  unfoldable pub replace_worker : ℕ → ClusterManager → ClusterManager
  unfolding set_worker kill_worker
  replace_worker index cm =
      if leb (length cm.workers) index
      then cm
      else (let killed = kill_worker index cm.workers cm.killed in
          elim (start index) [
            | none ↦ record cm { killed = killed }
            | some pid ↦ record cm { workers = set_worker index pid cm.workers; killed = killed }
          ])

  unfoldable pub restart_worker : ℕ → ClusterManager → Option ClusterManager
  unfolding lock replace_worker
  restart_worker index cm = elim (lock cm.mu) [
    | none ↦ none
    | some mu ↦
        (let done = replace_worker index (record cm { mu = mu }) in
          some (record done { mu = unlock done.mu }))
  ]

  -- The loop of a tick of `monitorWorkers`, over the workers that `range` read when it began.
  unfoldable pub monitor_loop :
      (ℕ → Bool) → ℕ → List (Option ℕ) → ClusterManager → Option ClusterManager
  unfolding restart_worker
  monitor_loop alive i [] cm = some cm
  monitor_loop alive i (none ∷ workers) cm = monitor_loop alive (suc i) workers cm
  monitor_loop alive i (some pid ∷ workers) cm =
      let going = monitor_loop alive (suc i) workers cm in
      if alive pid then going else elim (restart_worker i cm) [
        | none ↦ none
        | some next ↦ monitor_loop alive (suc i) workers next
      ]

  -- one tick of `monitorWorkers`
  unfoldable pub monitor_tick : (ℕ → Bool) → ClusterManager → Option ClusterManager
  unfolding r_lock monitor_loop
  monitor_tick alive cm = elim (r_lock cm.mu) [
    | none ↦ none
    | some mu ↦ elim (monitor_loop alive 0 cm.workers (record cm { mu = mu })) [
      | none ↦ none
      | some done ↦ some (record done { mu = r_unlock done.mu })
    ]
  ]

  -- the loop of `StartWorkers`, which ends at the first process that does not start: the workers, and
  -- whether all started
  unfoldable pub start_loop : ℕ → ℕ → List (Option ℕ) → List (Option ℕ) × Bool
  start_loop i zero workers = (workers, true)
  start_loop i (suc count) workers = elim (start i) [
    | none ↦ (workers, false)
    | some pid ↦ start_loop (suc i) count (workers ++ (some pid ∷ []))
  ]

  unfoldable pub start_workers : ℕ → ClusterManager → Option (ClusterManager × Bool)
  unfolding lock start_loop
  start_workers count cm = elim (lock cm.mu) [
    | none ↦ none
    | some mu ↦
        (let (workers, all) = start_loop 0 count cm.workers in
          some (record cm { workers = workers; mu = unlock mu }, all))
  ]

-- the loop of `Stop`
unfoldable pub kill_all : List (Option ℕ) → List ℕ → List ℕ
kill_all [] killed = killed
kill_all (none ∷ workers) killed = kill_all workers killed
kill_all (some pid ∷ workers) killed = kill_all workers (pid ∷ killed)

unfoldable pub stop : ClusterManager → Option ClusterManager
unfolding lock kill_all
stop cm = elim (lock cm.mu) [
  | none ↦ none
  | some mu ↦ some (record cm {
    workers = [];
    mu = unlock mu;
    killed = kill_all cm.workers cm.killed;
    stopped = true;
  })
]
