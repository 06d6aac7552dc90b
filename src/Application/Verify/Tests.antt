-- ===== src/Application/Verify/Tests.antt =====
-- A chain of two blocks on the genesis block.
use sahya_net.Prelude.{◌+◌, ◌≤◌, arith, ◌≡◌, refl, List, [], ◌∷◌, bytes_eq}
use sahya_net.Types.Block.{Block, eth_block_hash, eth_parent_hash, genesis, compute_digest}
use sahya_net.Types.Sample.{sample}
use sahya_net.Types.Sample.Blocks.{root, child, grandchild}
use sahya_net.Application.Verify.{handle_verify}
use sahya_net.Application.Verify.Chain.{IsChain, tip, chain_tip}

two_blocks : List (Block sample)
two_blocks = child ∷ grandchild ∷ []

two_blocks-IsChain : IsChain sample root two_blocks
unfolding two_blocks root child grandchild handle_verify eth_block_hash eth_parent_hash genesis
    compute_digest bytes_eq
two_blocks-IsChain = (refl, (refl, tt))

chain_tip_example :
    ((tip sample root two_blocks).height ≡ root.height + 2)
    × (root.timestamp + 2 ≤ (tip sample root two_blocks).timestamp)
unfolding two_blocks
chain_tip_example =
    chain_tip sample root two_blocks (unfold root genesis in omega arith) two_blocks-IsChain
