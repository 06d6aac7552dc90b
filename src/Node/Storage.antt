-- ===== src/Node/Storage.antt =====
-- The partitions of the runtime's storage that a node opens: those of the syncer
-- (syncer/src/actor.rs), of the finalizer (application/src/finalizer.rs) and of the consensus engine
-- (node/src/engine.rs), all under the prefix of its configuration.
pub mod Apart
mod Tests
use sahya_net.Prelude.{List, [], ◌∷◌}
use sahya_net.Application.Finalizer.{metadata_partition}
use sahya_net.Syncer.Opening.{verified_config, notarized_config, finalized_config, block_config}
use sahya_net.Node.Engine.{simplex_partition}
use Prim.Native.String.{String}

abbrev pub partitions : String → List String
partitions prefix =
    metadata_partition prefix
    ∷ (verified_config prefix).partition
    ∷ (notarized_config prefix).partition
    ∷ (finalized_config prefix).metadata_partition
    ∷ (finalized_config prefix).freezer_table_partition
    ∷ (finalized_config prefix).freezer_journal_partition
    ∷ (finalized_config prefix).ordinal_partition
    ∷ (block_config prefix).metadata_partition
    ∷ (block_config prefix).freezer_table_partition
    ∷ (block_config prefix).freezer_journal_partition
    ∷ (block_config prefix).ordinal_partition
    ∷ simplex_partition prefix
    ∷ []
