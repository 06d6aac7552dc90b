-- ===== src/Syncer/Environment.antt =====
-- What the syncer is built from: its configuration, the certificates of the consensus engine, and
-- the four archives of its `Actor` (syncer/src/actor.rs, syncer/src/lib.rs).
pub mod Sample
use sahya_net.Prelude.{ℕ, ◌≡◌, List, [], ◌∷◌, Bytes}
use sahya_net.Types.Primitives.{Primitives, PrimitivesLaws}
use sahya_net.Types.Block.{Block}
use sahya_net.Types.Certified.{Certificate, CertificateLaws, Certified}
use sahya_net.Syncer.Archive.{Archive, ArchiveLaws, ImmutableLaws}

pub record Environment : Type 1 where
  pub prim : Primitives
  pub Identity : Type 0
  pub Notarization : Type 0
  pub Finalization : Type 0
  pub notarization : Certificate Identity Notarization
  pub finalization : Certificate Identity Finalization
  -- prunable, by view
  pub verified : Archive (Block prim)
  pub notarized : Archive (Certified prim Notarization)
  -- immutable, by height
  pub finalized : Archive Finalization
  pub blocks : Archive (Block prim)
  -- of `Config`
  pub namespace : Bytes
  pub identity : Identity
  pub activity_timeout : ℕ

pub record EnvironmentLaws (e : Environment) : Type 1 where
  pub prim : PrimitivesLaws e.prim
  pub notarization : CertificateLaws e.notarization
  pub finalization : CertificateLaws e.finalization
  pub verified : ArchiveLaws e.verified
  pub notarized : ArchiveLaws e.notarized
  pub finalized : ArchiveLaws e.finalized
  pub blocks : ArchiveLaws e.blocks
  pub finalized_immutable : ImmutableLaws e.finalized
  pub blocks_immutable : ImmutableLaws e.blocks
