-- ===== src/Application/Verify/Chain.antt =====
-- A chain of blocks, each of which was verified against the one before.
use sahya_net.Prelude.{◌+◌, ◌^◌, ◌<◌, ◌≤◌, ◌≡◌, true, List, [], ◌∷◌, length, arith}
use sahya_net.Types.Primitives.{Primitives}
use sahya_net.Types.Block.{Block}
use sahya_net.Application.Verify.{handle_verify, handle_verify_iff}

module _ (x : Primitives) where
  abbrev pub IsChain : Block x → List (Block x) → Type 0
  IsChain parent [] = Unit
  IsChain parent (b ∷ rest) = (handle_verify x b parent ≡ true) × IsChain b rest

  abbrev pub tip : Block x → List (Block x) → Block x
  tip parent [] = parent
  tip parent (b ∷ rest) = tip b rest

  -- Each block of a chain is accepted by `handle_verify` against the one before. Then the tip of a
  -- chain of n blocks on a parent is n heights above it and at least n milliseconds later, if the
  -- heights fit a u64.
  pub chain_tip :
      (parent : Block x) (chain : List (Block x))
      → parent.height + length chain < 2 ^ 64
      → IsChain parent chain
      → ((tip parent chain).height ≡ parent.height + length chain)
        × (parent.timestamp + length chain ≤ (tip parent chain).timestamp)
  chain_tip parent [] range h = (omega arith, omega arith)
  chain_tip parent (b ∷ rest) range h =
      let ext = (handle_verify_iff x b parent).0 h.0 in
      let next_height = ext.next_height in
      let later = ext.later in
      let (high, late) = chain_tip b rest (omega arith) h.1 in (omega arith, omega arith)
