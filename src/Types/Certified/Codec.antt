-- ===== src/Types/Certified/Codec.antt =====
-- Reading and writing of certified blocks.
use sahya_net.Prelude.{
  ◌<◌, ◌≡◌, sym, ap, ◌∙◌, [], ◌++◌, Bytes, length, length-append, bytes_eq_iff, bytes_eq_refl,
  arith, inl, if◌then◌else◌,
}
use mathlib.Core.List.{append_assoc, append-nil}
use sahya_net.Types.Digest.{digest_eq}
use sahya_net.Types.Reading.{Reading, done, invalid, panic, then_read, of_option, then_read-eq-done}
use sahya_net.Types.Primitives.{Primitives, PrimitivesLaws}
use sahya_net.Types.Block
use sahya_net.Types.Block.{Block}
use sahya_net.Types.Block.Codec.{
  IsBlock, rehash, read_cfg-digest, read_cfg-write_same, read_cfg-panic_iff, encode_size-write,
}
use sahya_net.Types.Certified.{
  Certificate, CertificateLaws, Certified, write, read_cfg, encode_size, decode,
}

-- A certificate for the very block that it stands beside, whose digest is the one of its fields.
pub record IsCertified (x : Primitives) {I C : Type 0} (cert : Certificate I C) (n : Certified x C)
    : Type 0 where
  pub certifies : cert.payload n.proof ≡ n.block.digest
  pub hashed : rehash x n.block ≡ n.block

module _ (x : Primitives) {I C : Type 0} (cert : Certificate I C) where
  abbrev checked : C → Block x → Bytes → Reading (Certified x C)
  checked proof block rest =
      if digest_eq (cert.payload proof) block.digest
      then done (record { proof = proof; block = block }) rest
      else invalid

  checked-done :
      (proof : C) (block : Block x) (mid rest : Bytes) (n : Certified x C)
      → checked proof block mid ≡ done n rest
      → (cert.payload n.proof ≡ n.block.digest) × (block ≡ n.block)
  checked-done proof block mid rest n h =
      ground (arith, bytes_eq_iff (cert.payload proof) block.digest)

  -- Whatever the bytes, a certified block that is read has a proof for its block, and the block has
  -- the digest of its fields.
  pub read_cfg-IsCertified :
      (buf rest : Bytes) (n : Certified x C)
      → read_cfg x cert buf ≡ done n rest
      → IsCertified x cert n
  unfolding read_cfg
  read_cfg-IsCertified buf rest n h =
      let outer = λ (proof : C) (mid : Bytes). then_read (Block.read_cfg x mid) (checked proof) in
      let (proof, mid, e, g) = then_read-eq-done (of_option (cert.read_cfg buf)) outer h in
      let (block, mid', e', g') = then_read-eq-done (Block.read_cfg x mid) (checked proof) g in
      let (certifies, same) = checked-done proof block mid' rest n g' in
      record { certifies = certifies; hashed = rw (← same) (read_cfg-digest x mid mid' block e') }

module _ (x : Primitives) {I C : Type 0} (cert : Certificate I C) (laws : PrimitivesLaws x)
    (codec : CertificateLaws cert) where
  -- A block in range, with the digest of its fields and a certificate for that digest, is read
  -- back from what was written for the two, and the bytes behind them are left.
  pub certified_read-write :
      (n : Certified x C) (rest : Bytes)
      → IsBlock x n.block
      → IsCertified x cert n
      → read_cfg x cert (write x cert n ++ rest) ≡ done n rest
  unfolding read_cfg write
  certified_read-write n rest b c =
      rw (append_assoc, codec.read-write n.proof (Block.write x n.block ++ rest))
        (rw (read_cfg-write_same x laws n.block rest b c.hashed)
          (rw (c.certifies, bytes_eq_refl n.block.digest)))

  pub certified_decode-write :
      (n : Certified x C)
      → IsBlock x n.block
      → IsCertified x cert n
      → decode x cert (write x cert n) ≡ done n []
  certified_decode-write n b c =
      laws.decode_done (Certified x C) (read_cfg x cert) (write x cert n) n
        (ap (read_cfg x cert) (sym (append-nil (write x cert n))) ∙ certified_read-write n [] b c)

  -- The size that is announced for a certified block in range is the number of bytes written for it.
  pub certified_size-write :
      (n : Certified x C) → IsBlock x n.block → encode_size x cert n ≡ length (write x cert n)
  unfolding encode_size write
  certified_size-write n b = omega (
    arith,
    codec.size-write n.proof,
    encode_size-write x laws n.block b,
    length-append (cert.write n.proof) (Block.write x n.block),
  )

  -- A message that ends less than 4 bytes behind a well-formed certificate makes `decode` panic: it
  -- does not return an error.
  pub decode-truncated_panics :
      (c : C) (tail : Bytes) → length tail < 4 → decode x cert (cert.write c ++ tail) ≡ panic
  unfolding read_cfg
  decode-truncated_panics c tail h =
      laws.decode_panics (Certified x C) (read_cfg x cert) (cert.write c ++ tail)
        (rw (codec.read-write c tail) (rw ((read_cfg-panic_iff x tail).1 (inl h))))
