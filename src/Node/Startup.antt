-- ===== src/Node/Startup.antt =====
-- node/src/args.rs: how a node starts, from the command line (`Command::run_node`) and in the runtime
-- of another program (`run_node_with_runtime`). What is started is a record: the network with its
-- authorized peers and channels, and the engine. Past that the code waits for the two.
pub mod Member
mod Tests
use sahya_net.Prelude.{
  ℕ, ◌+◌, ◌%◌, ◌^◌, Bool, true, false, Option, none, some, List, [], ◌∷◌, Bytes, if◌then◌else◌,
}
use sahya_net.Types.Genesis.{Genesis}
use sahya_net.Node.Paths.{FilePath, path_of, get_expanded_path}
use sahya_net.Node.Host.{Host, Outcome, done, ◌>>=◌, or_fail, or_panic, unwrap, path_or_fail}
use sahya_net.Node.Committee.{Entry, committee_of, peers_of, our_ip}
use sahya_net.Node.Config.{
  pending_channel, recovered_channel, resolver_channel, broadcaster_channel, backfiller_channel,
  message_backlog, Url, http, EngineConfig, get_engine_config,
}
use Prim.Native.String.{String}

pub record Flags : Type 0 where
  pub key_path : Bytes
  pub share_path : Bytes
  pub store_path : Bytes
  pub engine_port : ℕ
  pub engine_jwt_path : Bytes
  pub port : ℕ
  pub prom_port : ℕ
  pub worker_threads : ℕ
  pub log_level : String
  pub db_prefix : String
  pub genesis_path : Bytes

-- The defaults of the command line that are numbers.
abbrev pub default_engine_port : ℕ
default_engine_port = 8551

abbrev pub default_port : ℕ
default_port = 8551

-- `network.register(channel, quota, backlog)`
pub record Channel : Type 0 where
  pub id : ℕ
  pub quota : ℕ
  pub backlog : ℕ

-- `authenticated::lookup::Config`
pub record Network (h : Host) : Type 0 where
  pub signer : h.PrivateKey
  pub namespace : String
  pub listen_port : ℕ
  pub dialable : h.Addr
  pub max_message_size : ℕ
  pub mailbox_size : ℕ

pub record Started (h : Host) : Type 0 where
  pub network : Network h
  -- `oracle.register(0, committee)`
  pub peer_set : ℕ × List (Entry h)
  pub channels : List Channel
  pub engine : EngineConfig h

-- `tokio::Config` and the address of the telemetry
pub record Runtime : Type 0 where
  pub worker_threads : ℕ
  pub storage_directory : FilePath
  pub telemetry_port : ℕ

-- What both ways have found out before they start anything.
pub record Prepared (h : Host) : Type 0 where
  pub genesis : Genesis
  pub committee : List (Entry h)
  pub config : EngineConfig h
  pub address : h.Addr

module _ (h : Host) where
  -- `Genesis::load_from_file`
  unfoldable pub load_from_file : Bytes → h.files.Store → Outcome Genesis
  load_from_file path s = do
    file_string ← or_fail (h.files.read_to_string (path_of path) s)
    or_fail (h.parse_genesis file_string)

  unfoldable pub prepare : Flags → h.files.Store → Outcome (Prepared h)
  unfolding load_from_file
  prepare flags s = do
    genesis ← unwrap (load_from_file flags.genesis_path s)
    committee ← or_panic (committee_of h genesis)
    config ← unwrap (
        get_engine_config h (http flags.engine_port) flags.engine_jwt_path flags.key_path
          flags.share_path (peers_of h committee) flags.db_prefix genesis s)
    address ← or_panic (our_ip h (h.public_key config.signer) committee)
    done (record { genesis = genesis; committee = committee; config = config; address = address })

  abbrev channels_of : EngineConfig h → List Channel
  channels_of config =
      record { id = pending_channel; quota = 128; backlog = message_backlog }
      ∷ record { id = recovered_channel; quota = 128; backlog = message_backlog }
      ∷ record { id = resolver_channel; quota = 128; backlog = message_backlog }
      ∷ record { id = broadcaster_channel; quota = 8; backlog = message_backlog }
      ∷ record { id = backfiller_channel; quota = config.backfill_quota; backlog = message_backlog }
      ∷ []

  unfoldable pub start : Flags → Prepared h → Started h
  start flags p = record {
    network = record {
      signer = p.config.signer;
      namespace = p.genesis.namespace;
      listen_port = flags.port;
      dialable = p.address;
      max_message_size = p.genesis.max_message_size_bytes;
      mailbox_size = p.config.mailbox_size;
    };
    peer_set = (0, p.committee);
    channels = channels_of p.config;
    engine = p.config;
  }

  -- `Level::from_str(..).is_ok()` of the crate tracing is the first argument.
  unfoldable pub run_node : (String → Bool) → Flags → h.files.Store → Outcome (Runtime × Started h)
  unfolding prepare start
  run_node is_level flags s = do
    p ← prepare flags s
    store_path ← unwrap (path_or_fail (get_expanded_path h.home_dir flags.store_path))
    level ← or_panic (if is_level flags.log_level then some tt else none)
    done (
      record {
        worker_threads = flags.worker_threads;
        storage_directory = store_path;
        telemetry_port = (flags.prom_port + 1) % 2 ^ 16;
      },
      start flags p,
    )

  unfoldable pub run_node_with_runtime : Flags → h.files.Store → Outcome (Started h)
  unfolding prepare start
  run_node_with_runtime flags s = do p ← prepare flags s; done (start flags p)
