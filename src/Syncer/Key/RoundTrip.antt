-- ===== src/Syncer/Key/RoundTrip.antt =====
-- A key that the node builds is read back as the value that it was built from.
use sahya_net.Prelude.{
  ℕ, ◌<◌, ◌^◌, ◌≡◌, refl, ap, ◌∙◌, some, [], ◌++◌, Bytes, be_bytes, from_be_bytes,
  from_be_bytes-be_bytes, length-be_bytes, length, take, replicate, length-append, take-append,
  drop-append, arith, le→leb,
}
use sahya_net.Types.Digest.{Digest}
use sahya_net.Syncer.Key.{
  Value, notarized, finalized, digest, IsValue, MultiIndex, IsMultiIndex, size, new, to_value,
  write, read_cfg,
}

-- the u64 in bytes 1..9
word_of_key :
    (n : ℕ) (rest : Bytes) → n < 2 ^ 64 → from_be_bytes (take 8 (be_bytes 8 n ++ rest)) ≡ n
word_of_key n rest h =
    ap from_be_bytes (take-append (be_bytes 8 n) rest 8 (length-be_bytes 8 n))
    ∙ from_be_bytes-be_bytes 8 n h

-- A key built from a value of the machine's range is decoded to that value.
pub to_value-new : (v : Value) → IsValue v → to_value (new v) ≡ some v
unfolding to_value new
to_value-new (notarized n) h = ap (λ m. some (notarized m)) (word_of_key n (replicate 24 0) h)
to_value-new (finalized n) h = ap (λ m. some (finalized m)) (word_of_key n (replicate 24 0) h)
to_value-new (digest d) h = refl

-- Two values of the machine's range with the same key are equal.
pub new_injective : (v w : Value) → IsValue v → IsValue w → new v ≡ new w → v ≡ w
new_injective v w hv hw e = cc (to_value-new v hv, to_value-new w hw, ap to_value e)

-- Every key that is built has 33 bytes.
pub new-IsMultiIndex : (v : Value) → IsValue v → IsMultiIndex (new v)
unfolding new
new-IsMultiIndex (notarized n) h =
    omega (arith, length-append (be_bytes 8 n) (replicate 24 0), length-be_bytes 8 n)
new-IsMultiIndex (finalized n) h =
    omega (arith, length-append (be_bytes 8 n) (replicate 24 0), length-be_bytes 8 n)
new-IsMultiIndex (digest d) h = omega arith

-- A written key is read back, and the bytes behind it are left.
pub read_cfg-write :
    (k : MultiIndex) (rest : Bytes)
    → IsMultiIndex k
    → read_cfg (write k [] ++ rest) ≡ some (k, rest)
unfolding read_cfg write
read_cfg-write k rest h =
    rw (le→leb size (length (k ++ rest)) (omega (arith, length-append k rest)))
      (rw (take-append k rest size h, drop-append k rest size h))

-- The key of a value in range, written in front of other bytes and read from them, leaves those
-- bytes and is decoded to the same value.
pub key_travels :
    (v : Value) (rest : Bytes)
    → IsValue v
    → (k : MultiIndex) × (read_cfg (write (new v) [] ++ rest) ≡ some (k, rest))
      × (to_value k ≡ some v)
key_travels v rest h = (new v, read_cfg-write (new v) rest (new-IsMultiIndex v h), to_value-new v h)

-- Only a key that is built from a digest is read back as a digest, and it is that one.
abbrev pub IsBuiltFrom : Value → Digest → Type 0
IsBuiltFrom (notarized n) d = ⊥
IsBuiltFrom (finalized n) d = ⊥
IsBuiltFrom (digest c) d = c ≡ d

pub to_value-digest :
    (v : Value) (d : Digest) → to_value (new v) ≡ some (digest d) → IsBuiltFrom v d
unfolding to_value new
to_value-digest (notarized n) d h = cc
to_value-digest (finalized n) d h = cc
to_value-digest (digest c) d h = cc
