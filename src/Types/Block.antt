-- ===== src/Types/Block.antt =====
-- types/src/block.rs: `Block`, its digest, and its two encodings.
pub mod Codec
mod Tests
use sahya_net.Prelude.{
  ℕ, ◌+◌, ◌*◌, ◌%◌, ◌^◌, List, [], ◌∷◌, ◌++◌, map, Option, none, some, Bytes, be_bytes,
  from_be_bytes, length, take, drop, ltb, ◌==◌, if◌then◌else◌,
}
use sahya_net.Types.Digest.{Digest, digest_size}
use sahya_net.Types.Reading.{Reading, done, invalid, panic}
use sahya_net.Types.Primitives.{
  Primitives, Field, bytes32, uint64, payload, requests, u256, FieldType, bytes32_type, uint64_type,
  payload_type, requests_type, u256_type, fixed_len, bytes_per_length_offset,
}

pub record Block (x : Primitives) : Type 0 where
  pub parent : Digest
  pub height : ℕ
  pub timestamp : ℕ
  pub execution_payload : x.Payload
  pub execution_requests : List Bytes
  pub block_value : ℕ
  pub digest : Digest

-- Decoders over the fields that an `SszDecoder` has left (`decode_next`), one for each type.
next_bytes32 : {P : Type 0} → List (Field P) → Option (Bytes × List (Field P))
next_bytes32 (bytes32 d ∷ fs) = some (d, fs)
next_bytes32 _ = none

next_uint64 : {P : Type 0} → List (Field P) → Option (ℕ × List (Field P))
next_uint64 (uint64 n ∷ fs) = some (n, fs)
next_uint64 _ = none

next_payload : {P : Type 0} → List (Field P) → Option (P × List (Field P))
next_payload (payload p ∷ fs) = some (p, fs)
next_payload _ = none

next_requests : {P : Type 0} → List (Field P) → Option (List Bytes × List (Field P))
next_requests (requests l ∷ fs) = some (l, fs)
next_requests _ = none

next_u256 : {P : Type 0} → List (Field P) → Option (ℕ × List (Field P))
next_u256 (u256 n ∷ fs) = some (n, fs)
next_u256 _ = none

infixl 5 ◌>>=◌
abbrev pub ◌>>=◌ {ℓ κ} : {A : Type ℓ} {B : Type κ} → Option A → (A → Option B) → Option B
none >>= f = none
some a >>= f = f a

module _ (x : Primitives) where
  unfoldable pub eth_block_hash : Block x → Digest
  eth_block_hash b = if b.height == 0 then b.digest else x.block_hash b.execution_payload

  unfoldable pub eth_parent_hash : Block x → Digest
  eth_parent_hash b = x.parent_hash b.execution_payload

  -- The bytes that `hasher` is given, in order.
  abbrev pub hashed_bytes : Digest → ℕ → ℕ → x.Payload → List Bytes → ℕ → Bytes
  hashed_bytes par h t p l v =
      par ++ be_bytes 8 h ++ be_bytes 8 t ++ x.payload_ssz p ++ x.requests_ssz l ++ x.u256_ssz v

  unfoldable pub compute_digest : Digest → ℕ → ℕ → x.Payload → List Bytes → ℕ → Block x
  compute_digest par h t p l v = record {
    parent = par;
    height = h;
    timestamp = t;
    execution_payload = p;
    execution_requests = l;
    block_value = v;
    digest = x.sha256 (hashed_bytes par h t p l v);
  }

  unfoldable pub genesis : Digest → Block x
  genesis genesis_hash = record {
    parent = genesis_hash;
    height = 0;
    timestamp = 0;
    execution_payload = x.default_payload;
    execution_requests = [];
    block_value = 0;
    digest = genesis_hash;
  }

  -- `Viewable`
  pub view : Block x → ℕ
  view b = b.height

  abbrev pub fields : Block x → List (Field x.Payload)
  fields b =
      bytes32 b.parent
      ∷ uint64 b.height
      ∷ uint64 b.timestamp
      ∷ payload b.execution_payload
      ∷ requests b.execution_requests
      ∷ u256 b.block_value
      ∷ []

  -- `as_ssz_bytes` of a block, by `ssz_append`.
  unfoldable pub ssz_append : Block x → Bytes
  ssz_append b =
      let offset =
        fixed_len bytes32_type
        + fixed_len uint64_type * 2
        + fixed_len payload_type
        + fixed_len requests_type
        + fixed_len u256_type in
      x.encode_container offset (fields b)

  unfoldable pub ssz_bytes_len : Block x → ℕ
  ssz_bytes_len b =
      digest_size
      + fixed_len uint64_type
      + fixed_len uint64_type
      + x.payload_len b.execution_payload
      + x.requests_len b.execution_requests
      + bytes_per_length_offset
      + fixed_len u256_type

  unfoldable pub from_ssz_bytes : Bytes → Option (Block x)
  unfolding next_bytes32 next_uint64 next_payload next_requests next_u256
  from_ssz_bytes bytes = do
    fs0 ←
        x.decode_container
          (bytes32_type ∷ uint64_type ∷ uint64_type ∷ payload_type ∷ requests_type ∷ u256_type ∷ [])
          bytes
    (par, fs1) ← next_bytes32 fs0
    (h, fs2) ← next_uint64 fs1
    (t, fs3) ← next_uint64 fs2
    (p, fs4) ← next_payload fs3
    (l, fs5) ← next_requests fs4
    (v, fs6) ← next_u256 fs5
    some (compute_digest par h t p l v)

  unfoldable pub encode_size : Block x → ℕ
  encode_size b = ssz_bytes_len b + bytes_per_length_offset * 2

  -- `Write`: the length as a big-endian u32, then the SSZ bytes.
  unfoldable pub write : Block x → Bytes
  write b = be_bytes 4 (length (ssz_append b) % 2 ^ 32) ++ ssz_append b

  abbrev of_ssz : Option (Block x) → Bytes → Reading (Block x)
  of_ssz none rest = invalid
  of_ssz (some b) rest = done b rest

  -- `Read`: `get_u32` and `copy_to_bytes` panic on a buffer that is too short.
  unfoldable pub read_cfg : Bytes → Reading (Block x)
  read_cfg buf =
      if ltb (length buf) 4
      then panic
      else let len = from_be_bytes (take 4 buf) in
        let rest = drop 4 buf in
        if ltb (length rest) len
        then panic
        else of_ssz (from_ssz_bytes (take len rest)) (drop len rest)
