-- ===== src/Pipeline/Agreed/Sample.antt =====
-- A network in which a finalization verifies only for the digest 0, and only what hashes to it is
-- final.
use sahya_net.Prelude.{
  ℕ, zero, suc, ◌≤◌, ◌≡◌, refl, sym, ap, ◌∙◌, [], ◌∷◌, ◌++◌, Bytes, bytes_eq, bytes_eq_iff, take,
  replicate, take-append, arith, be_bytes,
}
use mathlib.Core.List.{append_assoc}
use sahya_net.Types.Block.{Block, hashed_bytes, compute_digest}
use sahya_net.Types.Block.Codec.{rehash}
use sahya_net.Types.Certified.{Certificate, CertificateLaws}
use sahya_net.Types.Sample.{sample, hash, length-hash}
use sahya_net.Types.Sample.Blocks.{zero_hash}
use sahya_net.Syncer.Environment.{Environment, EnvironmentLaws}
use sahya_net.Syncer.Environment.Sample.{
  Vote, vote_certificate, vote_laws, environment, environment_laws,
}
use sahya_net.Syncer.Agreement.{Network}

abbrev strict : Certificate Unit Vote
strict = record vote_certificate { verify = λ namespace identity v. bytes_eq v.payload zero_hash }

strict_laws : CertificateLaws strict
strict_laws = record { read-write = vote_laws.read-write; size-write = vote_laws.size-write }

abbrev pub env : Environment
env = record environment { finalization = strict }

pub env_laws : EnvironmentLaws env
env_laws = record {
  prim = environment_laws.prim;
  notarization = environment_laws.notarization;
  finalization = strict_laws;
  verified = environment_laws.verified;
  notarized = environment_laws.notarized;
  finalized = environment_laws.finalized;
  blocks = environment_laws.blocks;
  finalized_immutable = environment_laws.finalized_immutable;
  blocks_immutable = environment_laws.blocks_immutable;
}

take-zeros : (n m : ℕ) → n ≤ m → take {A = ℕ} n (replicate m 0) ≡ replicate n 0
take-zeros zero m h = refl
take-zeros (suc n) zero h = absurd (omega arith)
take-zeros (suc n) (suc m) h = ap (λ l. 0 ∷ l) (take-zeros n m (omega arith))

-- Zeros at the front of a text and more are zeros at its front.
zeros_in_front :
    (n m : ℕ) (p q : Bytes)
    → n ≤ m
    → take n (p ++ q) ≡ replicate n 0
    → take n (p ++ replicate m 0) ≡ replicate n 0
zeros_in_front zero m p q h z = refl
zeros_in_front (suc n) m [] q h z = take-zeros (suc n) m h
zeros_in_front (suc n) m (b ∷ p) q h z =
    let first : b ≡ 0 = cc in
    let more : take n (p ++ q) ≡ replicate n 0 = cc in
    rw first (ap (λ l. 0 ∷ l) (zeros_in_front n m p q (omega arith) more))

hash_twice : (bs : Bytes) → hash (hash bs) ≡ hash bs
hash_twice bs = take-append (hash bs) (replicate 32 0) 32 (length-hash bs)

digest-hash :
    (b : Block sample)
    → rehash sample b ≡ b
    → b.digest
      ≡ hash (
          hashed_bytes sample b.parent b.height b.timestamp b.execution_payload b.execution_requests
            b.block_value)
unfolding compute_digest
digest-hash b h = sym (ap (λ (c : Block sample). c.digest) h)

pub final_digest :
    (b : Block sample) → rehash sample b ≡ b → hash b.digest ≡ zero_hash → b.digest ≡ zero_hash
final_digest b genuine final =
    let same = digest-hash b genuine in same ∙ sym (hash_twice _) ∙ ap hash (sym same) ∙ final

hash_front : (p q : Bytes) → hash (p ++ q) ≡ zero_hash → hash p ≡ zero_hash
hash_front p q h =
    zeros_in_front 32 32 p (q ++ replicate 32 0) (omega arith)
      (ap (take 32) (sym (append_assoc p q (replicate 32 0))) ∙ h)

pub final_parent :
    (b : Block sample) → rehash sample b ≡ b → hash b.digest ≡ zero_hash → hash b.parent ≡ zero_hash
final_parent b genuine final =
    let h = be_bytes 8 b.height in
    let t = be_bytes 8 b.timestamp in
    let p = sample.payload_ssz b.execution_payload in
    let r = sample.requests_ssz b.execution_requests in
    hash_front b.parent h (
      hash_front (b.parent ++ h) t (
        hash_front (b.parent ++ h ++ t) p (
          hash_front (b.parent ++ h ++ t ++ p) r (
            hash_front (b.parent ++ h ++ t ++ p ++ r) (sample.u256_ssz b.block_value)
              (sym (digest-hash b genuine) ∙ final_digest b genuine final)))))

abbrev pub network : Network env
network = record {
  Final = λ d. hash d ≡ zero_hash;
  certified = λ f ok. ap hash ((bytes_eq_iff f.payload zero_hash).0 ok);
  ancestors = final_parent;
  one_at_height = λ b c genuine genuine' final final' same.
      final_digest b genuine final ∙ sym (final_digest c genuine' final');
}
