-- ===== src/Syncer/Coherence/Resolve.antt =====
-- The messages of the resolver keep the archives coherent, whatever bytes the peers deliver.
use sahya_net.Prelude.{
  ℕ, ◌≡◌, refl, inl, inr, Option, none, some, [], Bytes, Option-cases, Bool-cases, ==→eq, ◌==◌,
  bytes_eq_iff,
}
use sahya_net.Types.Digest.{Digest, digest_eq}
use sahya_net.Types.Reading.{Reading, done, invalid, panic}
use sahya_net.Types.Block.{Block}
use sahya_net.Types.Certified.{Certificate, Certified, decode, read_cfg}
use sahya_net.Types.Certified.Codec.{read_cfg-IsCertified}
use sahya_net.Syncer.Environment.{Environment, EnvironmentLaws}
use sahya_net.Syncer.Archive.{Stores-expect, Stores-tolerate, expect, tolerate}
use sahya_net.Syncer.Key.{Value, notarized, finalized, digest, to_value}
use sahya_net.Syncer.Messages.{HandlerMessage, deliver, produce}
use sahya_net.Syncer.State.{State, Turn, Buffer}
use sahya_net.Syncer.Resolve.{
  refuse, accept_notarized, accept_finalized, accept_block, parsed, decode_block, deliver_value,
  on_deliver, produce_value, on_produce, on_handler,
}
use sahya_net.Syncer.Coherence.{IsNotarized, IsFinalized, IsBlockAt, IsCoherent, Ensures}

module _ (e : Environment) (laws : EnvironmentLaws e) where
  -- A certified block that is decoded has a certificate for its block.
  pub decode-certifies :
      {I C : Type 0} (cert : Certificate I C) (bytes rest : Bytes) (n : Certified e.prim C)
      → decode e.prim cert bytes ≡ done n rest
      → cert.payload n.proof ≡ n.block.digest
  decode-certifies {I} {C} cert bytes rest n h =
      (read_cfg-IsCertified e.prim cert bytes [] n (
        laws.prim.decode_reads (Certified e.prim C) (read_cfg e.prim cert) bytes n rest
          h)).certifies

  accept_notarized-IsCoherent :
      (view : ℕ) (n : Certified e.prim e.Notarization) (s : State e)
      → e.notarization.payload n.proof ≡ n.block.digest
      → IsCoherent e s
      → Ensures e (IsCoherent e) (accept_notarized e view n s)
  unfolding accept_notarized
  accept_notarized-IsCoherent view n s proves c =
      elim (Bool-cases (e.notarization.verify e.namespace e.identity n.proof)) [
        | inr invalid_proof ↦ rw invalid_proof c
        | inl valid ↦ elim (Bool-cases (e.notarization.view n.proof == view)) [
          | inr other_view ↦ rw (valid, other_view) c
          | inl same_view ↦
              elim (Option-cases
                (tolerate s.notarized (e.notarized.put view n.block.digest n s.notarized))) [
                  | inl failed ↦ rw (valid, same_view, failed) tt
                  | inr (ns, ok) ↦
                      rw (valid, same_view, ok)
                        (record {
                          verified = c.verified;
                          notarized =
                              Stores-tolerate e.notarized laws.notarized (IsNotarized e) view
                                n.block.digest n s.notarized ns ok
                                (==→eq _ _ same_view, proves, refl) c.notarized;
                          finalized = c.finalized;
                          blocks = c.blocks;
                        })
                ]
        ]
      ]

  accept_finalized-IsCoherent :
      (height : ℕ) (f : Certified e.prim e.Finalization) (s : State e)
      → e.finalization.payload f.proof ≡ f.block.digest
      → IsCoherent e s
      → Ensures e (IsCoherent e) (accept_finalized e height f s)
  unfolding accept_finalized
  accept_finalized-IsCoherent height f s proves c =
      elim (Bool-cases (e.finalization.verify e.namespace e.identity f.proof)) [
        | inr invalid_proof ↦ rw invalid_proof c
        | inl valid ↦ elim (Bool-cases (f.block.height == height)) [
          | inr other ↦ rw (valid, other) c
          | inl same ↦
              elim (Option-cases
                (expect (e.finalized.put height f.block.digest f.proof s.finalized))) [
                  | inl failed ↦ rw (valid, same, failed) tt
                  | inr (fs, ok) ↦
                      elim (Option-cases
                        (expect (e.blocks.put height f.block.digest f.block s.blocks))) [
                          | inl failed ↦ rw (valid, same, ok, failed) tt
                          | inr (bs, ok') ↦
                              rw (valid, same, ok, ok')
                                (record {
                                  verified = c.verified;
                                  notarized = c.notarized;
                                  finalized =
                                      Stores-expect e.finalized laws.finalized (IsFinalized e)
                                        height f.block.digest f.proof s.finalized fs ok
                                        (proves, (f.block, ==→eq _ _ same, refl)) c.finalized;
                                  blocks =
                                      Stores-expect e.blocks laws.blocks (IsBlockAt e) height
                                        f.block.digest f.block s.blocks bs ok'
                                        (==→eq _ _ same, refl) c.blocks;
                                })
                        ]
                ]
        ]
      ]

  accept_block-IsCoherent :
      (d : Digest) (b : Block e.prim) (s : State e)
      → IsCoherent e s
      → Ensures e (IsCoherent e) (accept_block e d b s)
  unfolding accept_block
  accept_block-IsCoherent d b s c = elim (Bool-cases (digest_eq b.digest d)) [
    | inr other ↦ rw other c
    | inl same ↦ elim (Option-cases (expect (e.blocks.put b.height d b s.blocks))) [
      | inl failed ↦ rw (same, failed) tt
      | inr (bs, ok) ↦
          rw (same, ok)
            (record {
              verified = c.verified;
              notarized = c.notarized;
              finalized = c.finalized;
              blocks =
                  Stores-expect e.blocks laws.blocks (IsBlockAt e) b.height d b s.blocks bs ok
                    (refl, (bytes_eq_iff b.digest d).0 same) c.blocks;
            })
    ]
  ]

  parsed-IsCoherent :
      {A : Type 0} (r : Reading A) (f : A → State e → Turn e) (s : State e)
      → ((a : A) (rest : Bytes) → r ≡ done a rest → Ensures e (IsCoherent e) (f a s))
      → IsCoherent e s
      → Ensures e (IsCoherent e) (parsed e r f s)
  unfolding refuse
  parsed-IsCoherent (done a rest) f s h c = h a rest refl
  parsed-IsCoherent invalid f s h c = c
  parsed-IsCoherent panic f s h c = tt

  deliver_value-IsCoherent :
      (v : Option Value) (value : Bytes) (s : State e)
      → IsCoherent e s
      → Ensures e (IsCoherent e) (deliver_value e v value s)
  unfolding deliver_value
  deliver_value-IsCoherent none value s c = tt
  deliver_value-IsCoherent (some (notarized view)) value s c =
      parsed-IsCoherent (decode e.prim e.notarization value) (accept_notarized e view) s
        (λ n rest h.
          accept_notarized-IsCoherent view n s (decode-certifies e.notarization value rest n h) c)
        c
  deliver_value-IsCoherent (some (finalized height)) value s c =
      parsed-IsCoherent (decode e.prim e.finalization value) (accept_finalized e height) s
        (λ f rest h.
          accept_finalized-IsCoherent height f s (decode-certifies e.finalization value rest f h) c)
        c
  deliver_value-IsCoherent (some (digest d)) value s c =
      parsed-IsCoherent (decode_block e value) (accept_block e d) s
        (λ b rest h. accept_block-IsCoherent d b s c) c

  produce_value-IsCoherent :
      (buffer : Buffer e) (v : Option Value) (s : State e)
      → IsCoherent e s
      → Ensures e (IsCoherent e) (produce_value e buffer v s)
  unfolding produce_value
  produce_value-IsCoherent buffer none s c = tt
  produce_value-IsCoherent buffer (some v) s c = c

  pub on_handler-IsCoherent :
      (buffer : Buffer e) (h : HandlerMessage) (s : State e)
      → IsCoherent e s
      → Ensures e (IsCoherent e) (on_handler e buffer h s)
  unfolding on_handler on_deliver on_produce
  on_handler-IsCoherent buffer (deliver key value) s c =
      deliver_value-IsCoherent (to_value key) value s c
  on_handler-IsCoherent buffer (produce key) s c =
      produce_value-IsCoherent buffer (to_value key) s c
