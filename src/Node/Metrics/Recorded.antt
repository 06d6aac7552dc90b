-- ===== src/Node/Metrics/Recorded.antt =====
-- Which descriptions and values the recorder keeps, and how many upkeep tasks run.
use sahya_net.Prelude.{
  ℕ, zero, suc, ◌≡◌, refl, ap, ◌∙◌, true, false, none, some, List, [], ◌∷◌, ◌++◌, ◌+◌,
  if◌then◌else◌,
}
use sahya_net.Node.Hooks.{Hook, Readings}
use sahya_net.Node.Descriptions.{
  Description, describe_db_metrics, describe_static_file_metrics, describe_memory_stats,
  describe_io_stats,
}
use sahya_net.Node.Metrics.{
  Process, describe, described_all, serve, scrape, scrapes, spawn_upkeep, spawn_upkeeps,
  start_endpoint, install_prometheus_recorder,
}

scrapes-described :
    (all : List (List Hook × Readings)) (p : Process) → (scrapes all p).described ≡ p.described
unfolding scrapes scrape install_prometheus_recorder
scrapes-described [] p = refl
scrapes-described ((hooks, r) ∷ rest) p = scrapes-described rest (scrape hooks r p)

describe-off : (l : List Description) (p : Process) → p.is_installed ≡ false → describe l p ≡ p
unfolding describe
describe-off [] p off = refl
describe-off (d ∷ l) p off =
    ap (λ b. describe l (if b then record p { described = p.described ++ d ∷ [] } else p)) off
    ∙ describe-off l p off

described_all-off :
    (collector : List Description) (p : Process)
    → p.is_installed ≡ false
    → described_all collector p ≡ p
unfolding described_all
described_all-off collector p off =
    rw
      (
        describe-off describe_db_metrics p off,
        describe-off describe_static_file_metrics p off,
        describe-off collector p off,
        describe-off describe_memory_stats p off,
      )
      (describe-off describe_io_stats p off)

-- In a process whose recorder is not installed yet, as `run_node` leaves it, `serve` succeeds exactly
-- if the address can be bound, and, if no connection is accepted before it returns, none of its
-- descriptions is kept then or at any later scrape: the recorder is first installed when a connection
-- is accepted.
pub serve-forgets :
    (collector : List Description) (p : Process) (all : List (List Hook × Readings))
    → p.is_installed ≡ false
    → (serve false collector p ≡ none)
      × ((q : Process) × (serve true collector p ≡ some q)
          × ((scrapes all q).described ≡ p.described))
unfolding serve start_endpoint
serve-forgets collector p all off =
    let q = record p { is_bound = true } in
    (refl, (q, ap some (described_all-off collector q off), scrapes-described all q))

spawn_again : (p : Process) → p.upkeep ≡ true → spawn_upkeep p ≡ p
unfolding spawn_upkeep
spawn_again p on =
    ap (λ b. if b then p else record p { upkeep = true; upkeep_tasks = p.upkeep_tasks + 1 }) on

spawned : (n : ℕ) (p : Process) → p.upkeep ≡ true → spawn_upkeeps n p ≡ p
unfolding spawn_upkeeps
spawned zero p on = refl
spawned (suc n) p on = ap (spawn_upkeeps n) (spawn_again p on) ∙ spawned n p on

spawn_first :
    (p : Process)
    → p.upkeep ≡ false
    → ((spawn_upkeep p).upkeep ≡ true) × ((spawn_upkeep p).upkeep_tasks ≡ p.upkeep_tasks + 1)
unfolding spawn_upkeep
spawn_first p off = rw off (refl, refl)

-- However often the upkeep is asked for, one task is started.
pub spawn_upkeeps_once :
    (n : ℕ) (p : Process)
    → p.upkeep ≡ false
    → (spawn_upkeeps (suc n) p).upkeep_tasks ≡ p.upkeep_tasks + 1
unfolding spawn_upkeeps
spawn_upkeeps_once n p off =
    let (on, one) = spawn_first p off in
    ap (λ q. q.upkeep_tasks) (spawned n (spawn_upkeep p) on) ∙ one
