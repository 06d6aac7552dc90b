-- ===== src/Application/Proposal/Tests.antt =====
-- Proposals on the genesis block and on a block of height 1, with the genesis hash as forkchoice.
use sahya_net.Prelude.{◌≡◌, refl, sym, ap, ◌↔◌, true, Option, none, some, [], arith, bytes_eq}
use mathlib.Core.Option.{some-injective}
use sahya_net.Types.Block.{Block, eth_block_hash, genesis, compute_digest}
use sahya_net.Types.Sample.{sample}
use sahya_net.Types.Sample.Blocks.{zero_hash, child_payload, root, child}
use sahya_net.Application.Finalizer.{forkchoice_of}
use sahya_net.Application.Verify.{handle_verify}
use sahya_net.Application.Proposal.{
  Envelope, Answers, built, parent_of, next_timestamp, handle_proposal,
}
use sahya_net.Application.Proposal.Accepted.{BuildsOnHead, proposal_verifies_iff}

-- a client that builds on the genesis hash
abbrev pub answers : Option (Block sample) → Answers sample
answers parent = record {
  parent_block = parent;
  height_reached = true;
  current_millis = 5;
  forkchoice = forkchoice_of zero_hash;
  payload_id = λ forkchoice attributes. some (some 0);
  envelope = λ id.
      some (record { execution_payload = child_payload; execution_requests = []; block_value = 0 });
}

builds_on_head : (parent : Option (Block sample)) → BuildsOnHead sample (answers parent)
builds_on_head parent timestamp id e h given = sym (
    ap (λ (v : Envelope sample). sample.parent_hash v.execution_payload) (some-injective _ _ given))

second : Block sample
second = compute_digest sample child.digest 2 6 child_payload [] 0

pub on_root : parent_of sample zero_hash zero_hash none ≡ some root
unfolding parent_of root bytes_eq
on_root = refl

pub child_built : handle_proposal sample zero_hash zero_hash (answers none) ≡ built child
unfolding handle_proposal parent_of next_timestamp genesis child bytes_eq
child_built = refl

proposal_verifies_iff_example :
    (handle_verify sample child root ≡ true) ↔ (zero_hash ≡ eth_block_hash sample root)
proposal_verifies_iff_example =
    proposal_verifies_iff sample zero_hash zero_hash (answers none) root child (builds_on_head none)
      on_root (unfold root genesis in omega arith) child_built
