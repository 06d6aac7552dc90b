-- ===== src/Syncer/Key.antt =====
-- syncer/src/key.rs: the 33-byte keys by which blocks are requested from peers.
pub mod RoundTrip
pub mod Reject
mod Tests
use sahya_net.Prelude.{
  ℕ, zero, suc, ◌+◌, ◌<◌, ◌^◌, ◌≡◌, Option, none, some, List, [], ◌∷◌, ◌++◌, Bytes, be_bytes,
  from_be_bytes, length, take, drop, replicate, leb, if◌then◌else◌,
}
use sahya_net.Types.Digest.{Digest, IsDigest}

-- `const SIZE: usize = u8::SIZE + Digest::SIZE`
abbrev pub size : ℕ
size = 33

pub data Value : Type 0 where
  notarized : ℕ → Value
  finalized : ℕ → Value
  digest : Digest → Value

-- A `[u8; SIZE]`.
abbrev pub MultiIndex : Type 0
MultiIndex = Bytes

abbrev pub IsMultiIndex : MultiIndex → Type 0
IsMultiIndex k = length k ≡ size

-- A u64, or the bytes of a digest.
abbrev pub IsValue : Value → Type 0
IsValue (notarized n) = n < 2 ^ 64
IsValue (finalized n) = n < 2 ^ 64
IsValue (digest d) = IsDigest d

-- The tag, then a u64 in bytes 1..9 or the digest; what is not written stays 0.
pub new : Value → MultiIndex
new (notarized n) = 0 ∷ (be_bytes 8 n ++ replicate 24 0)
new (finalized n) = 1 ∷ (be_bytes 8 n ++ replicate 24 0)
new (digest d) = 2 ∷ d

-- The `match self.0[0]`; `none` is `unreachable!()`.
value_of_tag : ℕ → Bytes → Option Value
value_of_tag zero rest = some (notarized (from_be_bytes (take 8 rest)))
value_of_tag (suc zero) rest = some (finalized (from_be_bytes (take 8 rest)))
value_of_tag (suc (suc zero)) rest = some (digest rest)
value_of_tag (suc (suc (suc n))) rest = none

-- `none` is a panic.
pub to_value : MultiIndex → Option Value
unfolding value_of_tag
to_value [] = none
to_value (tag ∷ rest) = value_of_tag tag rest

-- `Write`
pub write : MultiIndex → Bytes → Bytes
write k buf = buf ++ k

-- `Read`: the first 33 bytes of the buffer, whatever they are; `none` is an error.
pub read_cfg : Bytes → Option (MultiIndex × Bytes)
read_cfg buf = if leb size (length buf) then some (take size buf, drop size buf) else none
