-- ===== src/Types/Certified.antt =====
-- types/src/block.rs: `Notarized` and `Finalized`, a certificate with the block that it certifies. The
-- two types have the same code, which is modelled once for any certificate.
pub mod Codec
mod Tests
use sahya_net.Prelude.{
  ℕ, ◌+◌, ◌≡◌, Bool, Option, none, some, List, ◌++◌, Bytes, length, if◌then◌else◌,
}
use sahya_net.Types.Digest.{Digest, digest_eq}
use sahya_net.Types.Reading.{Reading, done, invalid, panic, then_read, of_option}
use sahya_net.Types.Primitives.{Primitives}
use sahya_net.Types.Block
use sahya_net.Types.Block.{Block}

-- A certificate of commonware_consensus, `Notarization<MinPk, Digest>` or `Finalization<MinPk,
-- Digest>`, with the public identity `I` that it is verified by.
pub record Certificate (I C : Type 0) : Type 0 where
  pub view : C → ℕ
  -- `proposal.payload`
  pub payload : C → Digest
  -- `verify(namespace, identity)`
  pub verify : Bytes → I → C → Bool
  pub write : C → Bytes
  pub read_cfg : Bytes → Option (C × Bytes)
  pub encode_size : C → ℕ

-- Its documented codec: what is written is read back, and has the announced size.
pub record CertificateLaws {I C : Type 0} (cert : Certificate I C) : Type 0 where
  pub read-write : (c : C) (rest : Bytes) → cert.read_cfg (cert.write c ++ rest) ≡ some (c, rest)
  pub size-write : (c : C) → cert.encode_size c ≡ length (cert.write c)

pub record Certified (x : Primitives) (C : Type 0) : Type 0 where
  pub proof : C
  pub block : Block x

module _ (x : Primitives) {I C : Type 0} (cert : Certificate I C) where
  unfoldable pub write : Certified x C → Bytes
  write n = cert.write n.proof ++ Block.write x n.block

  -- The proof must be for the block.
  unfoldable pub read_cfg : Bytes → Reading (Certified x C)
  read_cfg buf = then_read (of_option (cert.read_cfg buf)) λ proof mid.
      then_read (Block.read_cfg x mid) λ block rest.
        if digest_eq (cert.payload proof) block.digest
        then done (record { proof = proof; block = block }) rest
        else invalid

  unfoldable pub encode_size : Certified x C → ℕ
  encode_size n = cert.encode_size n.proof + Block.encode_size x n.block

  -- `Notarized::decode`, `Finalized::decode`
  abbrev pub decode : Bytes → Reading (Certified x C)
  decode bs = x.decode (Certified x C) read_cfg bs
