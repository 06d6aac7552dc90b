-- ===== src/Types/Block/Codec.antt =====
-- The byte format of a block: reading what was written, its size, and the buffers that panic.
use sahya_net.Prelude.{
  ℕ, ◌+◌, ◌%◌, ◌^◌, ◌<◌, ◌≤◌, ◌≡◌, refl, ap, ◌∙◌, ◌↔◌, ◌⊎◌, false, ◌++◌, Option, some, Bytes,
  be_bytes, from_be_bytes, from_be_bytes-be_bytes, length-be_bytes, length, take, drop, take-append,
  drop-append, length-append, ltb, arith, All,
}
use mathlib.Core.List.{append_assoc}
use sahya_net.Types.Digest.{IsDigest}
use sahya_net.Types.Reading.{done, panic}
use sahya_net.Types.Primitives.{Primitives, PrimitivesLaws, IsField}
use sahya_net.Types.Block.{
  Block, compute_digest, fields, ssz_append, ssz_bytes_len, from_ssz_bytes, encode_size, write,
  read_cfg, of_ssz,
}

module _ (x : Primitives) where
  -- The length of the SSZ form: 88 fixed bytes and the two variable parts.
  abbrev pub ssz_size : Block x → ℕ
  ssz_size b =
      88 + length (x.payload_ssz b.execution_payload) + length (x.requests_ssz b.execution_requests)

  -- The ranges of the machine types, and an SSZ form that a u32 can measure.
  pub record IsBlock (b : Block x) : Type 0 where
    pub parent_size : IsDigest b.parent
    pub height_range : b.height < 2 ^ 64
    pub timestamp_range : b.timestamp < 2 ^ 64
    pub value_range : b.block_value < 2 ^ 256
    pub fits : ssz_size b < 2 ^ 32

  -- The block with its digest computed anew.
  abbrev pub rehash : Block x → Block x
  rehash b =
      compute_digest x b.parent b.height b.timestamp b.execution_payload b.execution_requests
        b.block_value

  -- A buffer of `n` bytes or more is not short.
  not_short : (n k : ℕ) → k ≤ n → ltb n k ≡ false
  not_short n k h = ground arith

module _ (x : Primitives) (laws : PrimitivesLaws x) where
  fields-IsField : (b : Block x) → IsBlock x b → All IsField (fields x b)
  fields-IsField b h =
      (h.parent_size, (h.height_range, (h.timestamp_range, (tt, (tt, (h.value_range, tt))))))

  pub length-ssz_append : (b : Block x) → IsBlock x b → length (ssz_append x b) ≡ ssz_size x b
  unfolding ssz_append
  length-ssz_append b h = omega (arith, laws.container_size (fields x b) (fields-IsField b h))

  from_ssz_bytes-ssz_append :
      (b : Block x) → IsBlock x b → from_ssz_bytes x (ssz_append x b) ≡ some (rehash x b)
  unfolding from_ssz_bytes ssz_append
  from_ssz_bytes-ssz_append b h =
      rw (
        laws.container_decodes (fields x b) (fields-IsField b h) (let fits = h.fits in omega arith))

  read_frame :
      (p s rest : Bytes)
      → length p ≡ 4
      → from_be_bytes p ≡ length s
      → read_cfg x (p ++ (s ++ rest)) ≡ of_ssz x (from_ssz_bytes x s) rest
  unfolding read_cfg
  read_frame p s rest hp hs =
      rw (not_short x (length (p ++ (s ++ rest))) 4 (omega (arith, length-append p (s ++ rest)))) (
        rw (take-append p (s ++ rest) 4 hp, drop-append p (s ++ rest) 4 hp, hs)
          (rw (not_short x (length (s ++ rest)) (length s) (omega (arith, length-append s rest)))
            (rw (take-append s rest (length s) refl, drop-append s rest (length s) refl))))

  -- A block in range that is written, with any bytes behind it, is read back with its digest computed
  -- anew, and those bytes are left.
  pub read_cfg-write :
      (b : Block x) (rest : Bytes)
      → IsBlock x b
      → read_cfg x (write x b ++ rest) ≡ done (rehash x b) rest
  unfolding write
  read_cfg-write b rest h =
      let fits = h.fits in
      let size = length (ssz_append x b) in
      rw append_assoc (
        read_frame (be_bytes 4 (size % 2 ^ 32)) (ssz_append x b) rest
          (length-be_bytes 4 (size % 2 ^ 32))
          (from_be_bytes-be_bytes 4 (size % 2 ^ 32) (omega arith)
            ∙ omega (arith, length-ssz_append b h))
        ∙ rw (from_ssz_bytes-ssz_append b h))

  -- A block whose digest is the one of its fields is read back unchanged.
  pub read_cfg-write_same :
      (b : Block x) (rest : Bytes)
      → IsBlock x b
      → rehash x b ≡ b
      → read_cfg x (write x b ++ rest) ≡ done b rest
  read_cfg-write_same b rest h e = read_cfg-write b rest h ∙ ap (λ c. done c rest) e

  -- The size that is announced for a block in range is the number of bytes that are written for it.
  pub encode_size-write : (b : Block x) → IsBlock x b → encode_size x b ≡ length (write x b)
  unfolding encode_size ssz_bytes_len write
  encode_size-write b h = omega (
    arith,
    length-append (be_bytes 4 (length (ssz_append x b) % 2 ^ 32)) (ssz_append x b),
    length-be_bytes 4 (length (ssz_append x b) % 2 ^ 32),
    length-ssz_append b h,
    laws.payload_len_lem b.execution_payload,
    laws.requests_len_lem b.execution_requests,
  )

  -- `ssz_bytes_len` is 4 less than the number of SSZ bytes of any block in range.
  pub ssz_bytes_len-short :
      (b : Block x) → IsBlock x b → ssz_bytes_len x b + 4 ≡ length (ssz_append x b)
  unfolding ssz_bytes_len
  ssz_bytes_len-short b h = omega (
    arith,
    length-ssz_append b h,
    laws.payload_len_lem b.execution_payload,
    laws.requests_len_lem b.execution_requests,
  )

module _ (x : Primitives) where
  of_ssz-done :
      (o : Option (Block x)) (rest rest' : Bytes) (b : Block x)
      → of_ssz x o rest ≡ done b rest'
      → o ≡ some b
  of_ssz-done o rest rest' b h = ground arith

  of_ssz-panic : (o : Option (Block x)) (rest : Bytes) → of_ssz x o rest ≡ panic → ⊥
  of_ssz-panic o rest h = ground arith

  from_ssz_bytes-digest : (s : Bytes) (b : Block x) → from_ssz_bytes x s ≡ some b → rehash x b ≡ b
  unfolding from_ssz_bytes compute_digest
  from_ssz_bytes-digest s b h = ground arith

  -- A block that is read has the digest of its own fields: what a peer sends cannot choose it.
  pub read_cfg-digest :
      (buf rest : Bytes) (b : Block x) → read_cfg x buf ≡ done b rest → rehash x b ≡ b
  unfolding read_cfg
  read_cfg-digest buf rest b h =
      let len = from_be_bytes (take 4 buf) in
      let body = from_ssz_bytes x (take len (drop 4 buf)) in
      from_ssz_bytes-digest (take len (drop 4 buf)) b
        (ground (arith, of_ssz-done body (drop len (drop 4 buf)) rest b))

  -- Reading panics exactly on a buffer with less than 4 bytes, or with less behind them than they say.
  pub read_cfg-panic_iff :
      (buf : Bytes)
      → (read_cfg x buf ≡ panic)
        ↔ ((length buf < 4) ⊎ (length (drop 4 buf) < from_be_bytes (take 4 buf)))
  unfolding read_cfg
  read_cfg-panic_iff buf =
      let len = from_be_bytes (take 4 buf) in
      let body = from_ssz_bytes x (take len (drop 4 buf)) in
      (λ h. ground (arith, of_ssz-panic body (drop len (drop 4 buf))), λ h. ground arith)
