-- ===== src/Node/Config/Tests.antt =====
-- A configuration from files of the sample machine.
use sahya_net.Prelude.{◌≡◌, refl, true, [], ◌∷◌, Bytes, bytes_eq, replicate}
use sahya_net.Node.Paths.{normal, get_expanded_path}
use sahya_net.Node.Host.{done}
use sahya_net.Node.Sample.{host, genesis, read_file}
use sahya_net.Node.Keys.{read_ed_key_from_path}
use sahya_net.Node.Config.{
  http, EngineConfig, get_engine_config, read_jwt, read_share, with_genesis, config_of,
}

-- One file, `k`, serves as the token, the share and the key.
abbrev key_path : Bytes
key_path = 107 ∷ []

abbrev one_file : host.files.Store
one_file = (normal key_path ∷ [], "01") ∷ []

abbrev sample_config : EngineConfig host
sample_config =
    config_of host (http 8551) "01" 1 true 1 (replicate 32 0) (1 ∷ 2 ∷ []) "quartz" genesis

configured :
    get_engine_config host
      (http 8551)
      key_path
      key_path
      key_path
      (1 ∷ 2 ∷ [])
      "quartz"
      genesis
      one_file
    ≡ done sample_config
unfolding get_engine_config read_jwt get_expanded_path bytes_eq read_file read_share
    read_ed_key_from_path with_genesis
configured = refl
