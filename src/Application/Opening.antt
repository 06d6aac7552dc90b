-- ===== src/Application/Opening.antt =====
-- application/src/config.rs and `Actor::new` of application/src/actor.rs with `Finalizer::new` of
-- application/src/finalizer.rs: what the application and its finalizer begin with.
use sahya_net.Prelude.{ℕ, Option, none, some}
use sahya_net.Types.Digest.{Digest}
use sahya_net.Types.Primitives.{Primitives}
use sahya_net.Types.Block.{◌>>=◌}
use sahya_net.Application.Finalizer
use sahya_net.Application.Finalizer.{Finalizer, forkchoice_of, metadata_partition}
use sahya_net.Application.Actor.{State}
use sahya_net.Application.EngineClient
use Prim.Native.String.{String}

-- The URL is of the given type.
pub record ApplicationConfig (Url : Type 0) : Type 0 where
  pub mailbox_size : ℕ
  pub engine_url : Url
  pub engine_jwt : String
  pub partition_prefix : String
  pub genesis_hash : Digest

-- What reads the secret and the URL, what connects them, and what `Metadata::init` finds in a partition:
-- the height under `LATEST_KEY`, if there is one. `none` is an error.
pub record Outside (Url : Type 0) : Type 1 where
  pub Secret : Type 0
  pub Uri : Type 0
  pub Connection : Type 0
  pub Disk : Type 0
  pub from_hex : String → Option Secret
  pub parse : Url → Option Uri
  pub connect : Secret → Uri → Connection
  pub init_metadata : String → Disk → Option (Option ℕ)

-- The actor with its finalizer, and the capacities of the two channels.
pub record Opened (x : Primitives) (Connection : Type 0) : Type 0 where
  pub state : State x
  pub engine_client : Connection
  pub finalizer : Finalizer
  pub mailbox_capacity : ℕ
  pub height_notify_capacity : ℕ

-- `Actor::new`; each error is unwrapped, so `none` is a panic.
unfoldable pub new :
    {x : Primitives} {Url : Type 0} (o : Outside Url)
    → ApplicationConfig Url
    → o.Disk
    → Option (Opened x o.Connection)
new o cfg disk = do
  engine_client ←
      sahya_net.Application.EngineClient.new o.from_hex o.parse o.connect cfg.engine_url
        cfg.engine_jwt
  stored ← o.init_metadata (metadata_partition cfg.partition_prefix) disk
  some (record {
    state = record { genesis_hash = cfg.genesis_hash; built_block = none };
    engine_client = engine_client;
    finalizer = sahya_net.Application.Finalizer.new stored (forkchoice_of cfg.genesis_hash);
    mailbox_capacity = cfg.mailbox_size;
    height_notify_capacity = 1000;
  })
