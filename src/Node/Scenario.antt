-- ===== src/Node/Scenario.antt =====
-- The node with the key true starts over one file of the sample machine.
use sahya_net.Prelude.{◌≡◌, refl, Bool, true, [], ◌∷◌, Bytes, bytes_eq, replicate}
use sahya_net.Node.Paths.{normal, path_of, get_expanded_path}
use sahya_net.Node.Host.{done}
use sahya_net.Node.Sample.{host, genesis, read_file}
use sahya_net.Node.Keys.{read_ed_key_from_path}
use sahya_net.Node.Committee.{committee_of, peers_of, our_ip}
use sahya_net.Prelude.Sort.{sort, insert_sorted}
use sahya_net.Types.Genesis.{try_into}
use sahya_net.Node.Config.{
  http, EngineConfig, get_engine_config, read_jwt, read_share, with_genesis, config_of,
}
use sahya_net.Node.Startup.{Flags, Prepared, Runtime, start, run_node}
use Prim.Native.String.{String}

abbrev pub key_path : Bytes
key_path = 107 ∷ []

abbrev pub one_file : host.files.Store
one_file = (normal key_path ∷ [], "01") ∷ []

abbrev pub flags : Flags
flags = record {
  key_path = key_path;
  share_path = key_path;
  store_path = 115 ∷ [];
  engine_port = 8551;
  engine_jwt_path = key_path;
  port = 26600;
  prom_port = 9090;
  worker_threads = 4;
  log_level = "debug";
  db_prefix = "quartz";
  genesis_path = key_path;
}

abbrev pub sample_config : EngineConfig host
sample_config =
    config_of host (http 8551) "01" 1 true 1 (replicate 32 0) (1 ∷ 2 ∷ []) "quartz" genesis

abbrev pub prepared : Prepared host
prepared = record {
  genesis = genesis;
  committee = (1, 1) ∷ (2, 2) ∷ [];
  config = sample_config;
  address = 1;
}

abbrev pub runtime : Runtime
runtime = record {
  worker_threads = 4;
  storage_directory = normal (115 ∷ []) ∷ [];
  telemetry_port = 9091;
}

abbrev pub any_level : String → Bool
any_level text = true

pub starts : run_node host any_level flags one_file ≡ done (runtime, start host flags prepared)
unfolding run_node path_of committee_of try_into our_ip sort insert_sorted get_engine_config
    read_jwt get_expanded_path bytes_eq read_file read_share read_ed_key_from_path with_genesis
    config_of peers_of
starts = refl
