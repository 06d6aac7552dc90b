-- ===== src/Node/Metrics/Tests.antt =====
-- A process that serves its metrics and is scraped once.
use sahya_net.Prelude.{◌≡◌, refl, true, false, none, some, List, [], ◌∷◌}
use sahya_net.Node.Hooks.{Hook, Readings, MemoryStats, IoStats, builder}
use sahya_net.Node.Descriptions.{Description}
use sahya_net.Node.Metrics.{Process, fresh, serve, scrapes}
use sahya_net.Node.Metrics.Recorded.{serve-forgets}

abbrev memory : MemoryStats
memory = record {
  advanced = true;
  active = some 4096;
  allocated = none;
  mapped = some 8192;
  metadata = none;
  resident = some 8192;
  retained = some 0;
}

abbrev io : IoStats
io = record {
  rchar = 1;
  wchar = 2;
  syscr = 3;
  syscw = 4;
  read_bytes = 5;
  write_bytes = 6;
  cancelled_write_bytes = 0;
}

abbrev requests : List (List Hook × Readings)
requests =
    (builder, record { process = []; memory = memory; io = some (some io); others = λ n. [] }) ∷ []

abbrev of_process : List Description
of_process = record { metric = "process_threads"; unit = none; text = "" } ∷ []

serve-forgets_example :
    (serve false of_process fresh ≡ none)
    × ((q : Process) × (serve true of_process fresh ≡ some q)
        × ((scrapes requests q).described ≡ []))
serve-forgets_example = serve-forgets of_process fresh requests refl
