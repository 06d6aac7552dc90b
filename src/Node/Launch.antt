-- ===== src/Node/Launch.antt =====
-- node/src/engine.rs, `Engine::new`, past the configurations: the actors that it builds over the
-- storage, and which network channel and which mailbox `Engine::run` gives to which of them.
pub mod Resumes
mod Wired
mod Tests
use sahya_net.Prelude.{ℕ, Option, none, some, List, [], ◌∷◌}
use sahya_net.Types.Block.{◌>>=◌}
use sahya_net.Syncer.Environment.{Environment}
use sahya_net.Syncer.State.{State}
use sahya_net.Syncer.Opening as SyncerOpening
use sahya_net.Syncer.Opening.{Storage}
use sahya_net.Application.Opening as ApplicationOpening
use sahya_net.Application.Opening.{Outside, Opened}
use sahya_net.Node.Host.{Host}
use sahya_net.Node.Config.{Url}
use sahya_net.Node.Engine.{BufferConfig, SimplexConfig, Engine}
use sahya_net.Node.Startup.{Channel}

-- The storage of the syncer's archives, and what is outside of the application, over one disk; and
-- what builds the broadcast buffer and the consensus engine, of commonware_broadcast and
-- commonware_consensus, of which the latter panics, `none`, on a configuration that it refuses.
pub record Machine (h : Host) (I : Type 0) (e : Environment) : Type 1 where
  pub storage : Storage e
  pub outside : Outside Url
  pub same_disk : storage.Disk → outside.Disk
  pub BufferEngine : Type 0
  pub Simplex : Type 0
  pub new_buffer : BufferConfig h → BufferEngine
  pub new_simplex : SimplexConfig h I → Option Simplex

pub record Actors {h : Host} {I : Type 0} {e : Environment} (m : Machine h I e) : Type 0 where
  pub application : Opened e.prim m.outside.Connection
  pub buffer : m.BufferEngine
  pub syncer : State e
  pub simplex : m.Simplex
  pub syncer_mailbox_capacity : ℕ
  pub orchestrator_capacity : ℕ

-- The actors are built in the order of the source; each error is a panic, `none`.
unfoldable pub launch :
    {h : Host} {I : Type 0} {e : Environment} (m : Machine h I e)
    → Engine h I
    → m.storage.Disk
    → Option (Actors m)
launch m engine disk = do
  application ← ApplicationOpening.new m.outside engine.application (m.same_disk disk)
  syncer ← SyncerOpening.new m.storage engine.syncer.partition_prefix disk
  simplex ← m.new_simplex engine.simplex
  some (record {
    application = application;
    buffer = m.new_buffer engine.buffer;
    syncer = syncer;
    simplex = simplex;
    syncer_mailbox_capacity = engine.syncer.mailbox_size;
    orchestrator_capacity = 2;
  })

-- The networks of `Engine::start`, in the order of its arguments.
pub record Networks : Type 0 where
  pub pending : Channel
  pub recovered : Channel
  pub resolver : Channel
  pub broadcast : Channel
  pub backfill : Channel

-- The actors that are started, with what each is given: the application the channel of the finalizer
-- with its capacity, the others their networks. A closing channel and the mailboxes are left out.
pub data Task : Type 0 where
  application : ℕ → Task
  buffer : Channel → Task
  syncer : Channel → ℕ → Task
  simplex : Channel → Channel → Channel → Task

-- `Engine::run`: the syncer notifies on the channel that the finalizer listens to.
abbrev pub run : Networks → List Task
run n =
    let finalizer_network : ℕ = 1 in
    application finalizer_network
    ∷ buffer n.broadcast
    ∷ syncer n.backfill finalizer_network
    ∷ simplex n.pending n.recovered n.resolver
    ∷ []

-- `engine.start(pending, recovered, resolver, broadcaster, backfiller)` with the registered channels.
abbrev pub start_engine : List Channel → Option (List Task)
start_engine (pending ∷ recovered ∷ resolver ∷ broadcaster ∷ backfiller ∷ []) = some (
    run (record {
      pending = pending;
      recovered = recovered;
      resolver = resolver;
      broadcast = broadcaster;
      backfill = backfiller;
    }))
start_engine channels = none
