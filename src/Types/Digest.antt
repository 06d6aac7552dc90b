-- ===== src/Types/Digest.antt =====
-- The aliases of types/src/lib.rs. A `Digest` (and a `[u8; 32]` hash of the execution client) is its
-- bytes; the width is a hypothesis where a theorem needs it.
use sahya_net.Prelude.{ℕ, Bytes, Bool, ◌≡◌, length, bytes_eq}

abbrev pub Digest : Type 0
Digest = Bytes

abbrev pub digest_size : ℕ
digest_size = 32

abbrev pub IsDigest : Digest → Type 0
IsDigest d = length d ≡ digest_size

-- `==` on digests and hashes.
abbrev pub digest_eq : Digest → Digest → Bool
digest_eq a b = bytes_eq a b
