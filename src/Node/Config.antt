-- ===== src/Node/Config.antt =====
-- node/src/config.rs: the configuration of the engine, from the flags, the files and the genesis file.
-- Durations are in milliseconds, quotas per second.
pub mod Built
mod Tests
use sahya_net.Prelude.{
  ℕ, ◌*◌, ◌%◌, ◌^◌, Option, none, some, List, Bytes, length, ◌==◌, if◌then◌else◌,
}
use sahya_net.Types.Digest.{Digest}
use sahya_net.Types.Genesis.{Genesis}
use sahya_net.Node.Paths.{get_expanded_path}
use sahya_net.Node.Host.{Host, Outcome, done, ◌>>=◌, or_fail, or_panic, path_or_fail}
use sahya_net.Node.Keys.{read_ed_key_from_path}
use Prim.Native.String.{String}

abbrev pub pending_channel : ℕ
pending_channel = 0

abbrev pub recovered_channel : ℕ
recovered_channel = 1

abbrev pub resolver_channel : ℕ
resolver_channel = 2

abbrev pub broadcaster_channel : ℕ
broadcaster_channel = 3

abbrev pub backfiller_channel : ℕ
backfiller_channel = 4

abbrev fetch_timeout_ms : ℕ
fetch_timeout_ms = 5000

abbrev fetch_concurrent_count : ℕ
fetch_concurrent_count = 4

abbrev max_fetch : ℕ
max_fetch = 16

abbrev max_size : ℕ
max_size = 512 * 1024

abbrev mailbox : ℕ
mailbox = 16384

abbrev deque : ℕ
deque = 10

abbrev pub message_backlog : ℕ
message_backlog = 16384

abbrev backfill : ℕ
backfill = 10

abbrev fetch_rate_p2p : ℕ
fetch_rate_p2p = 128

-- `format!("http://0.0.0.0:{}", port)`
pub data Url : Type 0 where
  http : ℕ → Url

pub record EngineConfig (h : Host) : Type 0 where
  pub partition_prefix : String
  pub signer : h.PrivateKey
  pub participants : List h.Key
  pub mailbox_size : ℕ
  pub backfill_quota : ℕ
  pub deque_size : ℕ
  pub leader_timeout : ℕ
  pub notarization_timeout : ℕ
  pub nullify_retry : ℕ
  pub fetch_timeout : ℕ
  pub activity_timeout : ℕ
  pub skip_timeout : ℕ
  pub max_fetch_count : ℕ
  pub max_fetch_size : ℕ
  pub fetch_concurrent : ℕ
  pub fetch_rate_per_peer : ℕ
  pub engine_url : Url
  pub engine_jwt : String
  pub namespace : String
  pub genesis_hash : Digest
  pub share : h.Share
  pub polynomial : h.Poly

-- `try_into` of the bytes to `[u8; 32]`
abbrev pub to_hash : Bytes → Option Digest
to_hash bytes = if length bytes == 32 then some bytes else none

module _ (h : Host) where
  -- `EngineConfig { .. }`
  unfoldable pub config_of :
      Url
      → String
      → h.Share
      → h.PrivateKey
      → h.Poly
      → Digest
      → List h.Key
      → String
      → Genesis
      → EngineConfig h
  config_of url engine_jwt share signer polynomial hash participants db_prefix genesis = record {
    partition_prefix = db_prefix;
    signer = signer;
    participants = participants;
    mailbox_size = mailbox;
    backfill_quota = backfill;
    deque_size = deque;
    leader_timeout = genesis.leader_timeout_ms;
    notarization_timeout = genesis.notarization_timeout_ms;
    nullify_retry = genesis.nullify_timeout_ms;
    fetch_timeout = fetch_timeout_ms;
    activity_timeout = genesis.activity_timeout_views;
    skip_timeout = genesis.skip_timeout_views;
    max_fetch_count = max_fetch;
    max_fetch_size = max_size;
    fetch_concurrent = fetch_concurrent_count;
    fetch_rate_per_peer = fetch_rate_p2p;
    engine_url = url;
    engine_jwt = engine_jwt;
    namespace = genesis.namespace;
    genesis_hash = hash;
    share = share;
    polynomial = polynomial;
  }

  -- What is read off the genesis file, once the files of the node are read.
  unfoldable pub with_genesis :
      Url
      → String
      → h.Share
      → h.PrivateKey
      → List h.Key
      → String
      → Genesis
      → Outcome (EngineConfig h)
  with_genesis url engine_jwt share signer participants db_prefix genesis = do
    poly_bytes ← or_panic (h.formats.from_hex_formatted genesis.identity)
    threshold ← or_panic (h.quorum (length participants % 2 ^ 32))
    polynomial ← or_panic (h.decode_polynomial poly_bytes threshold)
    hash_bytes ← or_panic (h.formats.from_hex_formatted genesis.eth_genesis_hash)
    hash ← or_panic (to_hash hash_bytes)
    done (config_of url engine_jwt share signer polynomial hash participants db_prefix genesis)

  -- The share, from the hex text of its file.
  unfoldable pub read_share : Bytes → h.files.Store → Outcome h.Share
  read_share share_path s = do
    path ← path_or_fail (get_expanded_path h.home_dir share_path)
    share_hex ← or_fail (h.files.read_to_string path s)
    share_bytes ← or_panic (h.formats.from_hex_formatted share_hex)
    or_panic (h.decode_share share_bytes)

  unfoldable pub read_jwt : Bytes → h.files.Store → Outcome String
  read_jwt jwt_path s = do
    path ← path_or_fail (get_expanded_path h.home_dir jwt_path)
    or_fail (h.files.read_to_string path s)

  unfoldable pub get_engine_config :
      Url
      → Bytes
      → Bytes
      → Bytes
      → List h.Key
      → String
      → Genesis
      → h.files.Store
      → Outcome (EngineConfig h)
  get_engine_config url jwt_path key_path share_path participants db_prefix genesis s = do
    engine_jwt ← read_jwt jwt_path s
    share ← read_share share_path s
    signer ← read_ed_key_from_path h key_path s
    with_genesis url engine_jwt share signer participants db_prefix genesis
