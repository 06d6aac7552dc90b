-- ===== src/Types/Primitives.antt =====
-- What blocks are made of and is not written in this repository: the execution payload of
-- alloy_rpc_types_engine, SSZ of the crates ssz and alloy, SHA-256 and the `decode` of
-- commonware_codec. The operations are the fields of `Primitives`; what their documentation
-- promises, and the block format relies on, is `PrimitivesLaws`.
use sahya_net.Prelude.{ℕ, ◌+◌, ◌<◌, ◌^◌, ◌≡◌, List, [], ◌∷◌, map, Option, some, Bytes, length, All}
use sahya_net.Types.Digest.{Digest, IsDigest}
use sahya_net.Types.Reading.{Reading, done, panic}

-- The types that are registered with an `SszDecoderBuilder`.
pub data FieldType : Type 0 where
  bytes32_type uint64_type payload_type requests_type u256_type : FieldType

-- A value that is appended to an `SszEncoder`.
pub data Field (P : Type 0) : Type 0 where
  bytes32 : Bytes → Field P
  uint64 : ℕ → Field P
  payload : P → Field P
  requests : List Bytes → Field P
  u256 : ℕ → Field P

abbrev pub type_of : {P : Type 0} → Field P → FieldType
type_of (bytes32 d) = bytes32_type
type_of (uint64 n) = uint64_type
type_of (payload p) = payload_type
type_of (requests l) = requests_type
type_of (u256 n) = u256_type

-- `ssz::BYTES_PER_LENGTH_OFFSET`
abbrev pub bytes_per_length_offset : ℕ
bytes_per_length_offset = 4

-- `ssz_fixed_len`: the width of a fixed type, or of the offset of a variable one.
abbrev pub fixed_len : FieldType → ℕ
fixed_len bytes32_type = 32
fixed_len uint64_type = 8
fixed_len payload_type = bytes_per_length_offset
fixed_len requests_type = bytes_per_length_offset
fixed_len u256_type = 32

pub record Primitives : Type 1 where
  -- ExecutionPayloadV3
  pub Payload : Type 0
  pub parent_hash : Payload → Digest
  pub block_hash : Payload → Digest
  pub default_payload : Payload
  pub sha256 : Bytes → Digest
  -- `as_ssz_bytes` and `ssz_bytes_len`
  pub payload_ssz : Payload → Bytes
  pub requests_ssz : List Bytes → Bytes
  pub u256_ssz : ℕ → Bytes
  pub payload_len : Payload → ℕ
  pub requests_len : List Bytes → ℕ
  -- an `SszEncoder` container with its offset, and a decoder built from registered types
  pub encode_container : ℕ → List (Field Payload) → Bytes
  pub decode_container : List FieldType → Bytes → Option (List (Field Payload))
  -- `DecodeExt::decode`, which reads one value from the whole of a buffer
  pub decode : (A : Type 0) → (Bytes → Reading A) → Bytes → Reading A

abbrev pub IsField : {P : Type 0} → Field P → Type 0
IsField (bytes32 d) = IsDigest d
IsField (uint64 n) = n < 2 ^ 64
IsField (payload p) = Unit
IsField (requests l) = Unit
IsField (u256 n) = n < 2 ^ 256

abbrev pub offset_of : {P : Type 0} → List (Field P) → ℕ
offset_of [] = 0
offset_of (f ∷ fs) = fixed_len (type_of f) + offset_of fs

-- The bytes of a variable field, behind the fixed part.
abbrev pub variable_len : (x : Primitives) → Field x.Payload → ℕ
variable_len x (bytes32 d) = 0
variable_len x (uint64 n) = 0
variable_len x (payload p) = length (x.payload_ssz p)
variable_len x (requests l) = length (x.requests_ssz l)
variable_len x (u256 n) = 0

abbrev pub variable_part : (x : Primitives) → List (Field x.Payload) → ℕ
variable_part x [] = 0
variable_part x (f ∷ fs) = variable_len x f + variable_part x fs

pub record PrimitivesLaws (x : Primitives) : Type 1 where
  pub sha256_size : (bs : Bytes) → IsDigest (x.sha256 bs)
  pub payload_len_lem : (p : x.Payload) → x.payload_len p ≡ length (x.payload_ssz p)
  pub requests_len_lem : (l : List Bytes) → x.requests_len l ≡ length (x.requests_ssz l)
  pub u256_size : (n : ℕ) → n < 2 ^ 256 → length (x.u256_ssz n) ≡ 32
  -- a container has its fixed part and its variable parts
  pub container_size :
      (fs : List (Field x.Payload))
      → All IsField fs
      → length (x.encode_container (offset_of fs) fs) ≡ offset_of fs + variable_part x fs
  -- and is decoded by the types of its fields, if its offsets fit 32 bits
  pub container_decodes :
      (fs : List (Field x.Payload))
      → All IsField fs
      → offset_of fs + variable_part x fs < 2 ^ 32
      → x.decode_container (map type_of fs) (x.encode_container (offset_of fs) fs) ≡ some fs
  -- `decode` succeeds if the reader does and leaves nothing, and lets its panics through
  pub decode_done :
      (A : Type 0) (r : Bytes → Reading A) (bs : Bytes) (a : A)
      → r bs ≡ done a []
      → x.decode A r bs ≡ done a []
  pub decode_reads :
      (A : Type 0) (r : Bytes → Reading A) (bs : Bytes) (a : A) (rest : Bytes)
      → x.decode A r bs ≡ done a rest
      → r bs ≡ done a []
  pub decode_panics :
      (A : Type 0) (r : Bytes → Reading A) (bs : Bytes) → r bs ≡ panic → x.decode A r bs ≡ panic
