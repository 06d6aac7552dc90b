-- ===== src/Node/Metrics.antt =====
-- node/src/prom/: the global recorder and the server of the feature `prom`. The recorder of the crate
-- metrics is one for the process, and a description or a value that comes before it is installed is
-- not kept.
pub mod Recorded
mod Tests
use sahya_net.Prelude.{
  ℕ, zero, suc, ◌+◌, Bool, true, false, Option, none, some, List, [], ◌∷◌, ◌++◌, if◌then◌else◌,
}
use sahya_net.Node.Hooks.{Hook, Update, Readings, run_hooks}
use sahya_net.Node.Descriptions.{
  Description, describe_db_metrics, describe_static_file_metrics, describe_memory_stats,
  describe_io_stats,
}

-- The process: the recorder with what it keeps, and the upkeep tasks.
pub record Process : Type 0 where
  pub is_installed : Bool
  pub described : List Description
  pub upkeep : Bool
  pub upkeep_tasks : ℕ
  pub is_bound : Bool
  pub updates : List Update

abbrev pub fresh : Process
fresh = record {
  is_installed = false;
  described = [];
  upkeep = false;
  upkeep_tasks = 0;
  is_bound = false;
  updates = [];
}

-- `install_prometheus_recorder`, which installs the recorder the first time.
unfoldable pub install_prometheus_recorder : Process → Process
install_prometheus_recorder p = record p { is_installed = true }

-- The calls of `describe_gauge!` and `describe_counter!`, one after the other.
unfoldable pub describe : List Description → Process → Process
describe [] p = p
describe (d ∷ rest) p =
    describe rest (if p.is_installed then record p { described = p.described ++ d ∷ [] } else p)

-- `PrometheusRecorder::spawn_upkeep`
unfoldable pub spawn_upkeep : Process → Process
spawn_upkeep p =
    if p.upkeep then p else record p { upkeep = true; upkeep_tasks = p.upkeep_tasks + 1 }

-- `start_endpoint` binds the address, or fails; connections are accepted by a task of its own.
unfoldable pub start_endpoint : Bool → Process → Option Process
start_endpoint free p = if free then some (record p { is_bound = true }) else none

-- In the order of `serve`; those of `Collector::default().describe()` are given.
unfoldable pub described_all : List Description → Process → Process
unfolding describe
described_all collector p = describe describe_io_stats (
    describe describe_memory_stats
      (describe collector (describe describe_static_file_metrics (describe describe_db_metrics p))))

abbrev then_describe : List Description → Option Process → Option Process
then_describe collector none = none
then_describe collector (some p) = some (described_all collector p)

-- `MetricServer::serve`
unfoldable pub serve : Bool → List Description → Process → Option Process
unfolding start_endpoint described_all
serve free collector p = then_describe collector (start_endpoint free p)

-- A connection that the endpoint accepts, with one request: the recorder is installed if it is not
-- yet, and the hooks run.
unfoldable pub scrape : List Hook → Readings → Process → Process
unfolding install_prometheus_recorder run_hooks
scrape hooks r p =
    let q = install_prometheus_recorder p in record q { updates = q.updates ++ run_hooks r hooks }

unfoldable pub scrapes : List (List Hook × Readings) → Process → Process
unfolding scrape
scrapes [] p = p
scrapes ((hooks, r) ∷ rest) p = scrapes rest (scrape hooks r p)

unfoldable pub spawn_upkeeps : ℕ → Process → Process
unfolding spawn_upkeep
spawn_upkeeps zero p = p
spawn_upkeeps (suc n) p = spawn_upkeeps n (spawn_upkeep p)
