-- ===== src/Types/Block/Tests.antt =====
-- The codec of a block at concrete blocks.
use sahya_net.Prelude.{◌≡◌, ◌+◌, [], ◌∷◌, ◌++◌, length}
use sahya_net.Types.Reading.{done}
use sahya_net.Types.Block.{write, read_cfg, ssz_append, ssz_bytes_len}
use sahya_net.Types.Block.Codec.{
  rehash, read_cfg-write, read_cfg-write_same, ssz_bytes_len-short, read_cfg-digest,
}
use sahya_net.Types.Sample.{sample, sample_laws}
use sahya_net.Types.Sample.Blocks.{child, child-IsBlock, child-rehash}

read_cfg-write_example :
    read_cfg sample (write sample child ++ 7 ∷ []) ≡ done (rehash sample child) (7 ∷ [])
read_cfg-write_example = read_cfg-write sample sample_laws child (7 ∷ []) child-IsBlock

ssz_bytes_len-short_example : ssz_bytes_len sample child + 4 ≡ length (ssz_append sample child)
ssz_bytes_len-short_example = ssz_bytes_len-short sample sample_laws child child-IsBlock

read_cfg-digest_example : rehash sample child ≡ child
read_cfg-digest_example =
    read_cfg-digest sample (write sample child ++ []) [] child
      (read_cfg-write_same sample sample_laws child [] child-IsBlock child-rehash)
