-- ===== src/Cluster/Locks.antt =====
-- lsengine/internal/cluster/cluster.go: when the monitor waits for itself, and what a restart does.
use lsengine_js.Base.{
  ℕ, zero, suc, ◌<◌, ◌≡◌, refl, ap, sym, subst, inl, inr, Bool, false, not, ◌||◌, Option, none,
  some, List, [], ◌∷◌, arith, if◌then◌else◌, ◌==◌, length, leb, Bool-cases, get_elem?,
}
use lsengine_js.Cluster.{
  unlocked, ClusterManager, lock, r_lock, set_worker, kill_worker, replace_worker, restart_worker,
  monitor_loop, monitor_tick,
}

abbrev pub is_dead : (ℕ → Bool) → Option ℕ → Bool
is_dead alive none = false
is_dead alive (some pid) = not (alive pid)

abbrev pub any_dead : (ℕ → Bool) → List (Option ℕ) → Bool
any_dead alive [] = false
any_dead alive (w ∷ workers) = is_dead alive w || any_dead alive workers

-- Under a lock that a reader has, a restart waits for ever.
restart_worker-read :
    (start : ℕ → Option ℕ) (i : ℕ) (cm : ClusterManager)
    → cm.mu.readers ≡ 1
    → restart_worker start i cm ≡ none
unfolding restart_worker lock
restart_worker-read start i cm h = ground arith

monitor_loop-any_dead :
    (start : ℕ → Option ℕ) (alive : ℕ → Bool) (i : ℕ) (workers : List (Option ℕ))
    (cm : ClusterManager)
    → cm.mu.readers ≡ 1
    → monitor_loop start alive i workers cm ≡ (if any_dead alive workers then none else some cm)
unfolding monitor_loop
monitor_loop-any_dead start alive i [] cm h = refl
monitor_loop-any_dead start alive i (none ∷ workers) cm h =
    monitor_loop-any_dead start alive (suc i) workers cm h
monitor_loop-any_dead start alive i (some pid ∷ workers) cm h = ground (
  arith,
  monitor_loop-any_dead start alive (suc i) workers cm h,
  restart_worker-read start i cm h,
)

-- A manager whose lock is free.
abbrev free : ClusterManager → ClusterManager
free cm = record cm { mu = unlocked }

free_lem : (cm : ClusterManager) → cm.mu ≡ unlocked → free cm ≡ cm
free_lem cm h = ap (λ mu. record cm { mu = mu }) (sym h)

tick_free :
    (start : ℕ → Option ℕ) (alive : ℕ → Bool) (cm : ClusterManager)
    → monitor_tick start alive (free cm)
      ≡ (if any_dead alive cm.workers then none else some (free cm))
unfolding monitor_tick r_lock
tick_free start alive cm =
    (let loop =
        monitor_loop-any_dead start alive 0 cm.workers
          (record cm { mu = record { readers = 1; writing = false } }) refl in
      elim (Bool-cases (any_dead alive cm.workers)) [
        | inl e ↦ rw (monitor_tick, loop, e) refl
        | inr e ↦ rw (monitor_tick, loop, e) refl
      ])

-- On a lock that is free, a tick of the monitor waits for ever exactly when some worker is dead: it restarts
-- none of them. Where all live it changes nothing.
pub monitor_tick-any_dead :
    (start : ℕ → Option ℕ) (alive : ℕ → Bool) (cm : ClusterManager)
    → cm.mu ≡ unlocked
    → monitor_tick start alive cm ≡ (if any_dead alive cm.workers then none else some cm)
monitor_tick-any_dead start alive cm h =
    subst (λ c. monitor_tick start alive c ≡ (if any_dead alive c.workers then none else some c))
      (free_lem cm h) (tick_free start alive cm)

get_elem?-set_worker :
    (i j pid : ℕ) (workers : List (Option ℕ))
    → i < length workers
    → get_elem? (set_worker i pid workers) j
      ≡ (if i == j then some (some pid) else get_elem? workers j)
unfolding set_worker
get_elem?-set_worker i j pid [] h = absurd (omega arith)
get_elem?-set_worker zero zero pid (w ∷ workers) h = refl
get_elem?-set_worker zero (suc j) pid (w ∷ workers) h = ground arith
get_elem?-set_worker (suc i) zero pid (w ∷ workers) h = ground arith
get_elem?-set_worker (suc i) (suc j) pid (w ∷ workers) h =
    ground (arith, get_elem?-set_worker i j pid workers (omega arith))

abbrev Restarted : (ℕ → Option ℕ) → ℕ → ℕ → ClusterManager → Type 0
Restarted start i pid cm =
    (done : ClusterManager) × (restart_worker start i cm ≡ some done)
    × (done.mu ≡ unlocked)
    × ((j : ℕ)
        → get_elem? done.workers j ≡ (if i == j then some (some pid) else get_elem? cm.workers j))

restart_free :
    (start : ℕ → Option ℕ) (i pid : ℕ) (cm : ClusterManager)
    → i < length cm.workers
    → start i ≡ some pid
    → Restarted start i pid (free cm)
unfolding restart_worker replace_worker lock
restart_free start i pid cm h s =
    (let there : leb (length cm.workers) i ≡ false = ground arith in
      (
        record cm {
          workers = set_worker i pid cm.workers;
          mu = unlocked;
          killed = kill_worker i cm.workers cm.killed;
        },
        rw (there, s) refl,
        refl,
        λ j. get_elem?-set_worker i j pid cm.workers h,
      ))

-- On a lock that is free, the restart of a worker that exists and starts puts the new process in its place,
-- keeps every other worker, and leaves the lock free.
pub restart_worker-workers :
    (start : ℕ → Option ℕ) (i pid : ℕ) (cm : ClusterManager)
    → cm.mu ≡ unlocked
    → i < length cm.workers
    → start i ≡ some pid
    → (done : ClusterManager) × (restart_worker start i cm ≡ some done)
      × (done.mu ≡ unlocked)
      × ((j : ℕ)
          → get_elem? done.workers j ≡ (if i == j then some (some pid) else get_elem? cm.workers j))
restart_worker-workers start i pid cm m h s =
    subst (Restarted start i pid) (free_lem cm m) (restart_free start i pid cm h s)
