-- ===== src/Node/Storage/Tests.antt =====
-- The partition of the block table of a node with the prefix `quarts`.
use sahya_net.Prelude.{ℕ, ◌≡◌, refl}
use sahya_net.Node.Storage.Apart.{partitions-AreApart}
use Prim.Native.String.{String}

abbrev prefix : String
prefix = "quarts"

partitions-AreApart_example : (prefix ≡ "quarts") × (◌≡◌ {A = ℕ} 8 8)
partitions-AreApart_example = partitions-AreApart prefix "quarts" 8 8 "quarts-block-table" refl refl
