-- ===== src/Application/Proposal.antt =====
-- application/src/actor.rs, `handle_proposal`, with the calls of application/src/engine_client.rs that
-- it makes: how a leader builds a block.
pub mod Accepted
pub mod Tests
use sahya_net.Prelude.{
  ℕ, ◌+◌, ◌%◌, ◌^◌, Bool, true, false, Option, none, some, List, [], ◌∷◌, Bytes, leb, replicate,
  if◌then◌else◌,
}
use sahya_net.Types.Digest.{Digest, digest_eq}
use sahya_net.Types.Primitives.{Primitives}
use sahya_net.Types.Block.{Block, compute_digest, genesis}
use sahya_net.Application.Finalizer.{Forkchoice}

-- `PayloadAttributes` as `start_building_block` fills them.
pub record PayloadAttributes : Type 0 where
  pub timestamp : ℕ
  pub prev_randao : Digest
  pub suggested_fee_recipient : Bytes
  pub withdrawals : Option (List Bytes)
  pub parent_beacon_block_root : Option Digest

unfoldable pub attributes_of : ℕ → PayloadAttributes
attributes_of timestamp = record {
  timestamp = timestamp;
  prev_randao = replicate 32 0;
  suggested_fee_recipient = replicate 20 1;
  withdrawals = some [];
  parent_beacon_block_root = some (replicate 32 1);
}

-- `ExecutionPayloadEnvelopeV4`
pub record Envelope (x : Primitives) : Type 0 where
  pub execution_payload : x.Payload
  pub execution_requests : List Bytes
  pub block_value : ℕ

-- What the proposal is answered: the parent by the syncer (none if its channel is closed), whether
-- the finalizer reports the parent's height (false if it is gone), the clock, the shared forkchoice,
-- and the execution client, whose payload may depend on what it is told to build; `none` of a call is
-- a panic of its `unwrap`.
pub record Answers (x : Primitives) : Type 0 where
  pub parent_block : Option (Block x)
  pub height_reached : Bool
  pub current_millis : ℕ
  pub forkchoice : Forkchoice
  pub payload_id : Forkchoice → PayloadAttributes → Option (Option ℕ)
  pub envelope : ℕ → Option (Envelope x)

-- `Ok(block)`, `Err("Unable to build payload")`, or a panic.
pub data Proposed (x : Primitives) : Type 0 where
  built : Block x → Proposed x
  unable : Proposed x
  panicked : Proposed x

module _ (x : Primitives) where
  -- The genesis block, or what the syncer answers.
  unfoldable pub parent_of : Digest → Digest → Option (Block x) → Option (Block x)
  parent_of genesis_hash digest answer =
      if digest_eq digest genesis_hash then some (genesis x genesis_hash) else answer

  -- The clock, but later than the parent.
  unfoldable pub next_timestamp : ℕ → Block x → ℕ
  next_timestamp current parent =
      if leb current parent.timestamp then (parent.timestamp + 1) % 2 ^ 64 else current

  block_of : Block x → ℕ → Option (Envelope x) → Proposed x
  block_of parent current none = panicked
  block_of parent current (some e) = built (
      compute_digest x parent.digest ((parent.height + 1) % 2 ^ 64) current e.execution_payload
        e.execution_requests e.block_value)

  block_on : Answers x → Block x → ℕ → Option (Option ℕ) → Proposed x
  unfolding block_of
  block_on a parent current none = panicked
  block_on a parent current (some none) = unable
  block_on a parent current (some (some payload_id)) =
      block_of parent current (a.envelope payload_id)

  proposal_on : Answers x → Option (Block x) → Proposed x
  unfolding block_on
  proposal_on a none = panicked
  proposal_on a (some parent) =
      if a.height_reached
      then (let current = next_timestamp a.current_millis parent in
          block_on a parent current (a.payload_id a.forkchoice (attributes_of current)))
      else panicked

  -- `parent` is the digest of the pair that the consensus engine gives.
  unfoldable pub handle_proposal : Digest → Digest → Answers x → Proposed x
  unfolding proposal_on
  handle_proposal genesis_hash parent a =
      proposal_on a (parent_of genesis_hash parent a.parent_block)
