-- ===== src/Application/Verify.antt =====
-- application/src/actor.rs, `handle_verify`: when a node votes for a block.
pub mod Chain
mod Tests
use sahya_net.Prelude.{
  ℕ, ◌+◌, ◌%◌, ◌^◌, ◌<◌, ◌≡◌, ◌↔◌, Bool, true, false, not, leb, ◌==◌, bytes_eq_iff, if◌then◌else◌,
  arith,
}
use sahya_net.Types.Digest.{digest_eq}
use sahya_net.Types.Primitives.{Primitives}
use sahya_net.Types.Block.{Block, eth_block_hash, eth_parent_hash}

module _ (x : Primitives) where
  unfoldable pub handle_verify : Block x → Block x → Bool
  handle_verify block parent =
      if not (digest_eq (eth_parent_hash x block) (eth_block_hash x parent))
      then false
      else if not (digest_eq block.parent parent.digest)
      then false
      else if not (block.height == (parent.height + 1) % 2 ^ 64)
      then false
      else if leb block.timestamp parent.timestamp
      then false
      else true

  -- The child extends the parent, in the execution client and in the consensus.
  pub record Extends (block parent : Block x) : Type 0 where
    pub execution : eth_parent_hash x block ≡ eth_block_hash x parent
    pub link : block.parent ≡ parent.digest
    pub next_height : block.height ≡ (parent.height + 1) % 2 ^ 64
    pub later : parent.timestamp < block.timestamp

  -- `handle_verify` accepts a block exactly if it extends its parent: the payload is built on the
  -- parent's payload, the parent's digest is named, the height is the next one modulo 2 ^ 64 and
  -- the timestamp is later.
  pub handle_verify_iff :
      (block parent : Block x) → (handle_verify block parent ≡ true) ↔ Extends block parent
  unfolding handle_verify
  handle_verify_iff block parent = (
    λ h. ground (
      arith,
      bytes_eq_iff (eth_parent_hash x block) (eth_block_hash x parent),
      bytes_eq_iff block.parent parent.digest,
    ),
    λ h. ground (
      arith,
      h,
      bytes_eq_iff (eth_parent_hash x block) (eth_block_hash x parent),
      bytes_eq_iff block.parent parent.digest,
    ),
  )
