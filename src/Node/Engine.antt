-- ===== src/Node/Engine.antt =====
-- node/src/engine.rs, `Engine::new`: the configurations of the application, the broadcast buffer, the
-- syncer and the consensus engine, from that of the node. The actors are built from them and started.
pub mod Knows
mod Tests
use sahya_net.Prelude.{ℕ, ◌*◌, Bool, true, List}
use sahya_net.Prelude.Maps.{Eq}
use sahya_net.Types.Digest.{Digest}
use sahya_net.Syncer.Registry
use sahya_net.Syncer.Registry.{Registry}
use sahya_net.Application.Opening.{ApplicationConfig}
use sahya_net.Node.Host.{Host}
use sahya_net.Node.Config.{Url, EngineConfig}
use Prim.Native.String.{String, ◌++◌}

-- `buffered::Config`
pub record BufferConfig (h : Host) : Type 0 where
  pub public_key : h.Key
  pub mailbox_size : ℕ
  pub deque_size : ℕ
  pub priority : Bool

-- `summit_syncer::Config`, with the identities of type `I`
pub record SyncerConfig (h : Host) (I : Type 0) : Type 0 where
  pub partition_prefix : String
  pub public_key : h.Key
  pub registry : Registry h.Key I h.Share
  pub mailbox_size : ℕ
  pub backfill_quota : ℕ
  pub activity_timeout : ℕ
  pub namespace : String
  pub identity : I

-- `threshold_simplex::Config`
pub record SimplexConfig (h : Host) (I : Type 0) : Type 0 where
  pub crypto : h.PrivateKey
  pub supervisor : Registry h.Key I h.Share
  pub partition : String
  pub mailbox_size : ℕ
  pub namespace : String
  pub replay_buffer : ℕ
  pub write_buffer : ℕ
  pub leader_timeout : ℕ
  pub notarization_timeout : ℕ
  pub nullify_retry : ℕ
  pub activity_timeout : ℕ
  pub skip_timeout : ℕ
  pub fetch_timeout : ℕ
  pub max_fetch_count : ℕ
  pub fetch_rate_per_peer : ℕ
  pub fetch_concurrent : ℕ

pub record Engine (h : Host) (I : Type 0) : Type 0 where
  pub application : ApplicationConfig Url
  pub buffer : BufferConfig h
  pub syncer : SyncerConfig h I
  pub simplex : SimplexConfig h I

abbrev pub simplex_partition : String → String
simplex_partition partition_prefix = partition_prefix ++ "-summit"

-- The equality of public keys, `poly::public` and `evaluate_all` of commonware_cryptography.
module _ (h : Host) {I : Type 0} (e : Eq h.Key) (public : h.Poly → I)
    (evaluate_all : h.Poly → ℕ → List I) where
  abbrev pub registry_of : EngineConfig h → Registry h.Key I h.Share
  registry_of cfg = Registry.new e public evaluate_all cfg.participants cfg.polynomial cfg.share

  unfoldable pub new : EngineConfig h → Engine h I
  new cfg = record {
    application = record {
      mailbox_size = cfg.mailbox_size;
      engine_url = cfg.engine_url;
      engine_jwt = cfg.engine_jwt;
      partition_prefix = cfg.partition_prefix;
      genesis_hash = cfg.genesis_hash;
    };
    buffer = record {
      public_key = h.public_key cfg.signer;
      mailbox_size = cfg.mailbox_size;
      deque_size = cfg.deque_size;
      priority = true;
    };
    syncer = record {
      partition_prefix = cfg.partition_prefix;
      public_key = h.public_key cfg.signer;
      registry = registry_of cfg;
      mailbox_size = cfg.mailbox_size;
      backfill_quota = cfg.backfill_quota;
      activity_timeout = cfg.activity_timeout;
      namespace = cfg.namespace;
      identity = public cfg.polynomial;
    };
    simplex = record {
      crypto = cfg.signer;
      supervisor = registry_of cfg;
      partition = simplex_partition cfg.partition_prefix;
      mailbox_size = cfg.mailbox_size;
      namespace = cfg.namespace;
      replay_buffer = 8 * 1024 * 1024;
      write_buffer = 1024 * 1024;
      leader_timeout = cfg.leader_timeout;
      notarization_timeout = cfg.notarization_timeout;
      nullify_retry = cfg.nullify_retry;
      activity_timeout = cfg.activity_timeout;
      skip_timeout = cfg.skip_timeout;
      fetch_timeout = cfg.fetch_timeout;
      max_fetch_count = cfg.max_fetch_count;
      fetch_rate_per_peer = cfg.fetch_rate_per_peer;
      fetch_concurrent = cfg.fetch_concurrent;
    };
  }
