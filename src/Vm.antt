-- ===== src/Vm.antt =====
-- lsengine/internal/vm/vm_pool.go: the pool of JavaScript machines. A machine is what the pool knows of it;
-- the channel is a queue. Get, Put and a round of the cleanup are atomic here. Times are in seconds.
mod Pool
mod Cleanup
mod Tests
use lsengine_js.Base.{
  ℕ, zero, suc, ◌+◌, ◌-◌, ◌*◌, Bool, true, false, Option, none, some, List, [], ◌∷◌, ◌++◌,
  if◌then◌else◌, ltb, length,
}

-- `last_used` is 0, the zero time, until the machine is taken from the pool.
pub record GojaVm : Type 0 where
  pub last_used : ℕ
  pub created_at : ℕ
  pub usage_count : ℕ

pub record GojaPool : Type 0 where
  pub vms : List GojaVm
  pub max_size : ℕ
  pub created : ℕ
  pub reused : ℕ
  pub evicted : ℕ

abbrev pub max_vm_pool_size : ℕ
max_vm_pool_size = 500

abbrev pub min_vm_pool_size : ℕ
min_vm_pool_size = 10

abbrev pub create_vm : ℕ → GojaVm
create_vm now = record { last_used = 0; created_at = now; usage_count = 0 }

-- the loop of `InitGojaPool`
unfoldable pub fill : ℕ → ℕ → List GojaVm
fill now zero = []
fill now (suc n) = fill now n ++ (create_vm now ∷ [])

unfoldable pub init_goja_pool : ℕ → GojaPool
unfolding fill
init_goja_pool now = record {
  vms = fill now min_vm_pool_size;
  max_size = max_vm_pool_size;
  created = 0;
  reused = 0;
  evicted = 0;
}

abbrev pub take_waiting : ℕ → List GojaVm → GojaPool → GojaVm × GojaPool
take_waiting now [] p = (create_vm now, record p { created = p.created + 1 })
take_waiting now (v ∷ vms) p = (
  record v { last_used = now; usage_count = v.usage_count + 1 },
  record p { vms = vms; reused = p.reused + 1 },
)

-- `Get`: `select` takes a machine that waits, and otherwise makes one.
unfoldable pub get_vm : ℕ → GojaPool → GojaVm × GojaPool
get_vm now p = take_waiting now p.vms p

abbrev pub evict : GojaPool → GojaPool
evict p = record p { evicted = p.evicted + 1 }

-- A machine that no longer fits the channel is counted as evicted.
unfoldable pub put_vm : GojaVm → GojaPool → GojaPool
put_vm v p =
    if ltb 10000 v.usage_count
    then evict p
    else (if ltb (length p.vms) p.max_size then record p { vms = p.vms ++ (v ∷ []) } else evict p)

-- `time.Since(vm.lastUsed) > 30*time.Minute`
abbrev pub is_stale : ℕ → GojaVm → Bool
is_stale now v = ltb (30 * 60) (now - v.last_used)

-- one round of the inner loop of `cleanup`: the machine goes, or back into the channel it just left; where the
-- channel has no place for it, it is dropped and not counted
abbrev pub clean_first : ℕ → List GojaVm → GojaPool → GojaPool
clean_first now [] p = p
clean_first now (v ∷ vms) p =
    if is_stale now v
    then evict (record p { vms = vms })
    else (if ltb (length vms) p.max_size
        then record p { vms = vms ++ (v ∷ []) }
        else record p { vms = vms })

abbrev pub cleanup_one : ℕ → GojaPool → GojaPool
cleanup_one now p = clean_first now p.vms p

-- `for i := 0; i < len(p.vms); i++`, whose bound shrinks with the pool. A round needs one unit of fuel, and
-- there are at most as many rounds as machines.
unfoldable pub cleanup_loop : ℕ → ℕ → ℕ → GojaPool → GojaPool
cleanup_loop zero now i p = p
cleanup_loop (suc fuel) now i p =
    let rest = cleanup_loop fuel now (suc i) (cleanup_one now p) in
    if ltb i (length p.vms) then rest else p

unfoldable pub cleanup : ℕ → GojaPool → GojaPool
unfolding cleanup_loop
cleanup now p = cleanup_loop (length p.vms) now 0 p
