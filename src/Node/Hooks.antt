-- ===== src/Node/Hooks.antt =====
-- node/src/prom/hooks.rs: the hooks that collect metrics, with what the allocator, the system and the
-- other hooks answer at one request. The rounding of a value to an f64 is left out.
use sahya_net.Prelude.{ℕ, Bool, Option, none, some, List, [], ◌∷◌, ◌++◌, if◌then◌else◌}
use Prim.Native.String.{String}

-- A value that a recorder is given: `gauge!(name).set(value)`, `counter!(name).absolute(value)`.
pub data Update : Type 0 where
  gauge : String → ℕ → Update
  counter : String → ℕ → Update

abbrev pub metric_of : Update → String
metric_of (gauge metric value) = metric
metric_of (counter metric value) = metric

-- The three default hooks, and those that are registered.
pub data Hook : Type 0 where
  collect_process collect_memory collect_io : Hook
  registered : ℕ → Hook

-- `HooksBuilder::default`
abbrev pub builder : List Hook
builder = collect_process ∷ collect_memory ∷ collect_io ∷ []

-- `HooksBuilder::with_boxed_hook`
abbrev pub with_hook : Hook → List Hook → List Hook
with_hook hook hooks = hooks ++ hook ∷ []

-- `epoch::advance().is_ok()` and the readings of `tikv_jemalloc_ctl::stats`, none if one fails
pub record MemoryStats : Type 0 where
  pub advanced : Bool
  pub active : Option ℕ
  pub allocated : Option ℕ
  pub mapped : Option ℕ
  pub metadata : Option ℕ
  pub resident : Option ℕ
  pub retained : Option ℕ

-- `procfs::process::Io`
pub record IoStats : Type 0 where
  pub rchar : ℕ
  pub wchar : ℕ
  pub syscr : ℕ
  pub syscw : ℕ
  pub read_bytes : ℕ
  pub write_bytes : ℕ
  pub cancelled_write_bytes : ℕ

-- `if let Ok(value) = .. { gauge!(..).set(value) }`
abbrev pub set : String → Option ℕ → List Update → List Update
set metric none rest = rest
set metric (some value) rest = gauge metric value ∷ rest

-- On unix with the feature `jemalloc`.
unfoldable pub collect_memory_stats : MemoryStats → List Update
collect_memory_stats m =
    if m.advanced
    then (set "jemalloc.active" m.active (
        set "jemalloc.allocated" m.allocated (
          set "jemalloc.mapped" m.mapped (
            set "jemalloc.metadata" m.metadata
              (set "jemalloc.resident" m.resident (set "jemalloc.retained" m.retained []))))))
    else []

-- On Linux; the process, then its statistics, none if one cannot be had.
unfoldable pub collect_io_stats : Option (Option IoStats) → List Update
collect_io_stats none = []
collect_io_stats (some none) = []
collect_io_stats (some (some io)) =
    counter "io.rchar" io.rchar
    ∷ counter "io.wchar" io.wchar
    ∷ counter "io.syscr" io.syscr
    ∷ counter "io.syscw" io.syscw
    ∷ counter "io.read_bytes" io.read_bytes
    ∷ counter "io.write_bytes" io.write_bytes
    ∷ counter "io.cancelled_write_bytes" io.cancelled_write_bytes
    ∷ []

-- What the hooks find at one request; `Collector::default().collect()` and the registered hooks are
-- code of others.
pub record Readings : Type 0 where
  pub process : List Update
  pub memory : MemoryStats
  pub io : Option (Option IoStats)
  pub others : ℕ → List Update

unfoldable pub run_hook : Readings → Hook → List Update
unfolding collect_memory_stats collect_io_stats
run_hook r collect_process = r.process
run_hook r collect_memory = collect_memory_stats r.memory
run_hook r collect_io = collect_io_stats r.io
run_hook r (registered n) = r.others n

-- `hooks.iter().for_each(|hook| hook())`
unfoldable pub run_hooks : Readings → List Hook → List Update
unfolding run_hook
run_hooks r [] = []
run_hooks r (hook ∷ rest) = run_hook r hook ++ run_hooks r rest
