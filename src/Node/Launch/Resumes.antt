-- ===== src/Node/Launch/Resumes.antt =====
-- A node that `Engine::new` builds over what its former life has left goes on with the next height.
use sahya_net.Prelude.{ℕ, ◌^◌, ◌<◌, ◌≡◌, ◌⊎◌, ◌+◌, refl, none, some, List, [], ◌++◌, length}
use sahya_net.Types.Block.{Block}
use sahya_net.Prelude.Maps.{Eq}
use sahya_net.Syncer.Environment.{Environment, EnvironmentLaws}
use sahya_net.Syncer.State.{State}
use sahya_net.Syncer.Opening as SyncerOpening
use sahya_net.Syncer.Opening.Restart.{IsLeft}
use sahya_net.Syncer.Coherence.{IsCoherent}
use sahya_net.Application.Finalizer.{forkchoice_of, metadata_partition, new}
use sahya_net.Application.EngineClient
use sahya_net.Application.Opening as ApplicationOpening
use sahya_net.Pipeline.{Pipeline, looking}
use sahya_net.Pipeline.Consistent.{Descends}
use sahya_net.Pipeline.Restart.{Life, restarted, started}
use sahya_net.Pipeline.Restart.Calls.{head_height, InTurn, Life-tells}
use sahya_net.Node.Host.{Host}
use sahya_net.Node.Config.{EngineConfig}
use sahya_net.Node.Engine
use sahya_net.Node.Engine.{SimplexConfig}
use sahya_net.Node.Launch.{Machine, Actors, launch}

-- The two loops where they begin, with the calls that the execution client has had.
abbrev pub pipeline_of :
    {h : Host} {I : Type 0} {e : Environment} {m : Machine h I e}
    → List (Block e.prim)
    → Actors m
    → Pipeline e
pipeline_of calls a = record {
  syncer = a.syncer;
  finalizer = a.application.finalizer;
  phase = looking;
  calls = calls;
  committed = [];
}

-- What the node finds on its machine: a secret, a URL, the height that its former life has stored,
-- its archives, and a consensus engine that takes its configuration.
pub record Finds {h : Host} {I : Type 0} {e : Environment} (m : Machine h I e)
    (simplex_config : SimplexConfig h I) (cfg : EngineConfig h) (p : Pipeline e)
    (disk : m.storage.Disk) : Type 0 where
  pub secret : m.outside.Secret
  pub uri : m.outside.Uri
  pub syncer : State e
  pub simplex : m.Simplex
  pub reads_secret : m.outside.from_hex cfg.engine_jwt ≡ some secret
  pub parses : m.outside.parse cfg.engine_url ≡ some uri
  pub stored :
      m.outside.init_metadata (metadata_partition cfg.partition_prefix) (m.same_disk disk)
      ≡ some p.finalizer.durable
  pub opens : SyncerOpening.new m.storage cfg.partition_prefix disk ≡ some syncer
  pub takes_config : m.new_simplex simplex_config ≡ some simplex
  pub left : IsLeft m.storage cfg.partition_prefix p.syncer disk

module _ {h : Host} {I : Type 0} {e : Environment} (m : Machine h I e) (eq : Eq h.Key)
    (public : h.Poly → I) (evaluate_all : h.Poly → ℕ → List I) where
  launches :
      (cfg : EngineConfig h) (p : Pipeline e) (disk : m.storage.Disk)
      → Finds m (Engine.new h eq public evaluate_all cfg).simplex cfg p disk
      → (a : Actors m) × (launch m (Engine.new h eq public evaluate_all cfg) disk ≡ some a)
        × (pipeline_of p.calls a ≡ started cfg.genesis_hash p.finalizer.durable p.calls a.syncer)
        × (a.application.state.genesis_hash ≡ cfg.genesis_hash)
        × (SyncerOpening.new m.storage cfg.partition_prefix disk ≡ some a.syncer)
  unfolding launch ApplicationOpening.new EngineClient.new Engine.new
  launches cfg p disk f = (
    record {
      application = record {
        state = record { genesis_hash = cfg.genesis_hash; built_block = none };
        engine_client = m.outside.connect f.secret f.uri;
        finalizer = new p.finalizer.durable (forkchoice_of cfg.genesis_hash);
        mailbox_capacity = cfg.mailbox_size;
        height_notify_capacity = 1000;
      };
      buffer = m.new_buffer (Engine.new h eq public evaluate_all cfg).buffer;
      syncer = f.syncer;
      simplex = f.simplex;
      syncer_mailbox_capacity = cfg.mailbox_size;
      orchestrator_capacity = 2;
    },
    rw (f.reads_secret, f.parses, f.stored, f.opens, f.takes_config) refl,
    refl,
    refl,
    f.opens,
  )

  -- Let a node have lived to any point, over the prefix and with the genesis hash of a
  -- configuration, and let it find on its machine the secret and the URL of the execution client, the
  -- height that it has stored, archives that hold nothing but what it had put, and a consensus engine
  -- that takes the configuration it is given. Then `Engine::new` builds its actors from the
  -- configuration without a panic; the application answers with the same genesis hash; and, while one
  -- more height fits a u64, the finalizer stands at the number of the blocks whose height the node has
  -- stored in its whole life, the heights 1, 2, 3 and so on, over a coherent syncer. The newest
  -- `commit_hash` of the former life was for that height, or for the next one, which is then told
  -- again; and the new life continues the old one.
  pub launch_resumes :
      (laws : EnvironmentLaws e) (cfg : EngineConfig h) {p : Pipeline e}
      {past : List (Block e.prim)} (disk : m.storage.Disk)
      → Life m.storage cfg.partition_prefix cfg.genesis_hash p past
      → Finds m (Engine.new h eq public evaluate_all cfg).simplex cfg p disk
      → length (p.committed ++ past) + 1 < 2 ^ 64
      → (a : Actors m) × (launch m (Engine.new h eq public evaluate_all cfg) disk ≡ some a)
        × (a.application.state.genesis_hash ≡ cfg.genesis_hash)
        × (a.application.finalizer.last_indexed ≡ length (p.committed ++ past))
        × Descends e 0 (p.committed ++ past)
        × IsCoherent e a.syncer
        × InTurn p.calls
        × ((head_height p.calls ≡ a.application.finalizer.last_indexed)
            ⊎ (head_height p.calls ≡ a.application.finalizer.last_indexed + 1))
        × Life m.storage cfg.partition_prefix cfg.genesis_hash
            (pipeline_of p.calls a)
            (p.committed ++ past)
  launch_resumes laws cfg {p} {past} disk life finds range =
      let (a, built, same, genesis_hash, opened) = launches cfg p disk finds in
      let on : Life m.storage cfg.partition_prefix cfg.genesis_hash
          (started cfg.genesis_hash p.finalizer.durable p.calls a.syncer) (p.committed ++ past) =
        restarted disk life finds.left opened in
      let on' : Life m.storage cfg.partition_prefix cfg.genesis_hash (pipeline_of p.calls a)
          (p.committed ++ past) =
        rw same on in
      let (in_order, at, stored, coherent, in_turn, newest) =
        Life-tells laws m.storage cfg.partition_prefix cfg.genesis_hash on' range in
      (a, built, genesis_hash, at, in_order, coherent, in_turn, newest, on')
