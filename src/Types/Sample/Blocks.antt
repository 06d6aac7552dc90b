-- ===== src/Types/Sample/Blocks.antt =====
-- A short chain of blocks for tests.
use sahya_net.Prelude.{◌≡◌, refl, List, [], ◌∷◌, replicate, arith}
use sahya_net.Types.Digest.{Digest, IsDigest}
use sahya_net.Types.Block.{Block, genesis, compute_digest}
use sahya_net.Types.Block.Codec.{IsBlock, rehash}
use sahya_net.Types.Sample.{sample}

abbrev pub zero_hash : Digest
zero_hash = replicate 32 0

abbrev pub one_hash : Digest
one_hash = replicate 32 1

unfoldable pub root : Block sample
root = genesis sample zero_hash

abbrev pub child_payload : List Digest
child_payload = zero_hash ∷ one_hash ∷ []

unfoldable pub child : Block sample
child = compute_digest sample zero_hash 1 5 child_payload [] 0

unfoldable pub grandchild : Block sample
grandchild = compute_digest sample child.digest 2 6 (one_hash ∷ zero_hash ∷ []) [] 0

pub child-IsBlock : IsBlock sample child
unfolding child compute_digest
child-IsBlock = record {
  parent_size = refl;
  height_range = omega arith;
  timestamp_range = omega arith;
  value_range = omega arith;
  fits = omega arith;
}

pub child-rehash : rehash sample child ≡ child
unfolding child compute_digest
child-rehash = refl

pub child_height : child.height ≡ 1
unfolding child compute_digest
child_height = refl

pub child_digest-IsDigest : IsDigest child.digest
unfolding child compute_digest
child_digest-IsDigest = refl
