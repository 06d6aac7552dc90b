-- ===== src/Syncer/Opening.antt =====
-- syncer/src/actor.rs, `Actor::new` and the start of `Actor::run`: the archives that the syncer opens
-- on its storage, and the configuration of its resolver.
pub mod Restart
use sahya_net.Prelude.{ℕ, ◌*◌, Bool, false, Option, none, some}
use sahya_net.Syncer.Environment.{Environment}
use sahya_net.Syncer.State.{State, ◌>>=◌}
use sahya_net.Syncer.Actor.{init}
use Prim.Native.String.{String, ◌++◌}

abbrev pub replay_buffer : ℕ
replay_buffer = 8 * 1024 * 1024

abbrev pub write_buffer : ℕ
write_buffer = 1024 * 1024

-- `archive::prunable::Config`, without the translator and the codec
pub record PrunableConfig : Type 0 where
  pub partition : String
  pub compression : Option ℕ
  pub items_per_section : ℕ
  pub write_buffer : ℕ
  pub replay_buffer : ℕ

-- `archive::immutable::Config`, without the codec
pub record ImmutableConfig : Type 0 where
  pub metadata_partition : String
  pub freezer_table_partition : String
  pub freezer_table_initial_size : ℕ
  pub freezer_table_resize_frequency : ℕ
  pub freezer_table_resize_chunk_size : ℕ
  pub freezer_journal_partition : String
  pub freezer_journal_target_size : ℕ
  pub freezer_journal_compression : Option ℕ
  pub ordinal_partition : String
  pub items_per_section : ℕ
  pub write_buffer : ℕ
  pub replay_buffer : ℕ

abbrev pub verified_config : String → PrunableConfig
verified_config partition_prefix = record {
  partition = partition_prefix ++ "-verified-archive";
  compression = none;
  items_per_section = 1024;
  write_buffer = write_buffer;
  replay_buffer = replay_buffer;
}

abbrev pub notarized_config : String → PrunableConfig
notarized_config partition_prefix = record {
  partition = partition_prefix ++ "-notarized-archive";
  compression = none;
  items_per_section = 1024;
  write_buffer = write_buffer;
  replay_buffer = replay_buffer;
}

abbrev pub finalized_config : String → ImmutableConfig
finalized_config partition_prefix = record {
  metadata_partition = partition_prefix ++ "-finalized-metadata";
  freezer_table_partition = partition_prefix ++ "-finalized-table";
  freezer_table_initial_size = 65536;
  freezer_table_resize_frequency = 4;
  freezer_table_resize_chunk_size = 16384;
  freezer_journal_partition = partition_prefix ++ "-finalized-journal";
  freezer_journal_target_size = 1024;
  freezer_journal_compression = none;
  ordinal_partition = partition_prefix ++ "-finalized-ordinal";
  items_per_section = 1024;
  write_buffer = write_buffer;
  replay_buffer = replay_buffer;
}

abbrev pub block_config : String → ImmutableConfig
block_config partition_prefix = record {
  metadata_partition = partition_prefix ++ "-block-metadata";
  freezer_table_partition = partition_prefix ++ "-block-table";
  freezer_table_initial_size = 65536;
  freezer_table_resize_frequency = 4;
  freezer_table_resize_chunk_size = 16384;
  freezer_journal_partition = partition_prefix ++ "-block-journal";
  freezer_journal_target_size = 1024;
  freezer_journal_compression = none;
  ordinal_partition = partition_prefix ++ "-block-ordinal";
  items_per_section = 1024;
  write_buffer = write_buffer;
  replay_buffer = replay_buffer;
}

-- What `init` of the archives finds on the storage of the runtime; `none` is an error.
pub record Storage (e : Environment) : Type 1 where
  pub Disk : Type 0
  pub init_verified : PrunableConfig → Disk → Option e.verified.Store
  pub init_notarized : PrunableConfig → Disk → Option e.notarized.Store
  pub init_finalized : ImmutableConfig → Disk → Option e.finalized.Store
  pub init_blocks : ImmutableConfig → Disk → Option e.blocks.Store

-- `Actor::new`; each error is an `.expect(..)`, so `none` is a panic.
unfoldable pub new : {e : Environment} (d : Storage e) → String → d.Disk → Option (State e)
new {e} d partition_prefix disk = do
  verified_archive ← d.init_verified (verified_config partition_prefix) disk
  notarized_archive ← d.init_notarized (notarized_config partition_prefix) disk
  finalized_archive ← d.init_finalized (finalized_config partition_prefix) disk
  block_archive ← d.init_blocks (block_config partition_prefix) disk
  some (init e verified_archive notarized_archive finalized_archive block_archive)
