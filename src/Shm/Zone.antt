-- ===== src/Shm/Zone.antt =====
-- src/shm.rs: how `crowdsec_decisions` comes to hold its data, `decisions_shm_zone_init` with
-- `decision_shm_layout_matches`, and the election of the one worker that polls,
-- `try_become_poller` and `release_poller`. The slab allocator and `kill` are parameters.
pub mod Init
pub mod Poller
use ngx_http_crowdsec_module.Base.Words.{u32_mod, u64_mod}
use ngx_http_crowdsec_module.Base.{
  ℕ, ◌+◌, ◌-◌, ◌*◌, ◌/◌, ◌%◌, ◌^◌, Bool, true, false, not, ◌&&◌, ◌||◌, Option, none, some, leb,
  ◌==◌, if◌then◌else◌, replicate, ◌>>=◌, max,
}
use ngx_http_crowdsec_module.Shm.Entry
use ngx_http_crowdsec_module.Shm.Scenario
use ngx_http_crowdsec_module.Shm.Scenario.{max_scenarios}
use ngx_http_crowdsec_module.Shm.State.{ShmData}

-- `CsD1`, read as a little-endian word.
abbrev pub shm_magic : ℕ
shm_magic = 826569539

abbrev pub shm_layout_version : ℕ
shm_layout_version = 4

abbrev pub usable_memory_percent : ℕ
usable_memory_percent = 70

abbrev pub min_capacity : ℕ
min_capacity = 1024

-- `size_of` the three structures on a 64-bit target.
abbrev pub entry_size : ℕ
entry_size = 56

abbrev pub scenario_size : ℕ
scenario_size = 128

abbrev pub header_size : ℕ
header_size = 96

unfoldable pub layout_matches : ShmData → Bool
layout_matches s = s.magic == shm_magic && s.layout_version == shm_layout_version

-- `pid as i32`; `signalled` says whether `kill(pid, 0)` succeeds or fails with `EPERM`.
unfoldable pub process_alive : (ℕ → Bool) → ℕ → Bool
process_alive signalled pid =
    let p = pid % u32_mod in if p == 0 || leb (2 ^ 31) p then false else signalled p

abbrev pub available_for_entries : ℕ → ℕ
available_for_entries size =
    (size - (header_size + scenario_size * max_scenarios)) * usable_memory_percent % u64_mod / 100

-- The number of slots for a zone of that many bytes, as a `u32`.
unfoldable pub capacity_for : ℕ → ℕ
capacity_for size = max (available_for_entries size / entry_size) min_capacity % u32_mod

-- What the first initialization writes.
unfoldable pub fresh : ℕ → ShmData
fresh capacity = record {
  magic = shm_magic;
  layout_version = shm_layout_version;
  lock = 0;
  poller_pid = 0;
  count = 0;
  capacity = capacity;
  scenario_count = 0;
  version = 0;
  clock_hand = 0;
  eviction_count = 0;
  entries = replicate capacity Entry.empty;
  scenarios = replicate max_scenarios Scenario.empty;
  cidr_prefixes = replicate 3 0;
}

-- The data of an earlier configuration: a poller that is gone takes its claim and its lock with it.
unfoldable pub reuse : (ℕ → Bool) → ShmData → ShmData
reuse signalled s =
    if s.poller_pid == 0 || not (process_alive signalled s.poller_pid)
    then record s { poller_pid = 0; lock = 0 }
    else s

-- The callback: the data that nginx hands over from before, if any, the allocator's pool, if there
-- is one, and the size of the zone. `none` is `NGX_ERROR`.
unfoldable pub decisions_shm_zone_init :
    {Pool : Type 0}
    → (Pool → ℕ → Option Pool)
    → (ℕ → Bool)
    → Option ShmData
    → Option Pool
    → ℕ
    → Option ShmData
decisions_shm_zone_init alloc signalled (some s) pool size =
    if layout_matches s then some (reuse signalled s) else none
decisions_shm_zone_init alloc signalled none pool size = do
  start ← pool
  after_header ← alloc start header_size
  after_entries ← alloc after_header (entry_size * capacity_for size)
  after_scenarios ← alloc after_entries (scenario_size * max_scenarios)
  some (fresh (capacity_for size))

-- What `try_become_poller` and `release_poller` touch: the zone, and the worker's own `IS_POLLER`.
pub record Worker : Type 0 where
  pub zone : Option ShmData
  pub is_poller : Bool

-- `compare_exchange` on the word that names the poller, and what it held.
abbrev pub claim : ShmData → ℕ → ℕ → ShmData
claim s expected new = record s {
  poller_pid = if s.poller_pid == expected then new else s.poller_pid;
}

-- The claim of a poller that has died, and its lock, are dropped.
unfoldable pub drop_dead_claim : (ℕ → Bool) → ℕ → ShmData → ShmData
drop_dead_claim signalled my_pid s =
    if not (s.poller_pid == 0)
      && not (s.poller_pid == my_pid)
      && not (process_alive signalled s.poller_pid)
    then record s { poller_pid = 0; lock = 0 }
    else s

-- One call that no other worker's call comes between: the worker after it, and the result.
unfoldable pub try_become_poller : (ℕ → Bool) → ℕ → Worker → Worker × Bool
try_become_poller signalled my_pid w = elim w.zone [
  | none ↦ (w, false)
  | some s ↦
      let s' = drop_dead_claim signalled my_pid s in
      if s'.poller_pid == 0 || s'.poller_pid == my_pid
      then (record { zone = some (claim s' 0 my_pid); is_poller = true }, true)
      else (record w { zone = some s' }, false)
]

unfoldable pub release_poller : ℕ → Worker → Worker
release_poller my_pid w = elim w.zone [
  | none ↦ w
  | some s ↦ record { zone = some (claim s my_pid 0); is_poller = false }
]
