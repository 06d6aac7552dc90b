-- ===== src/Syncer/Agreement/Resolve.antt =====
-- The messages of the resolver: what peers deliver for a key that was fetched is final, or refused.
use sahya_net.Prelude.{
  ℕ, ◌≡◌, refl, inl, inr, Option, none, some, List, [], All, Bytes, Option-cases, Bool-cases, ◌==◌,
}
use mathlib.Core.List.{Memᴰ}
use sahya_net.Types.Digest.{Digest, digest_eq}
use sahya_net.Types.Reading.{Reading, done, invalid, panic}
use sahya_net.Types.Block.{Block, read_cfg}
use sahya_net.Types.Block.Codec.{read_cfg-digest}
use sahya_net.Types.Certified
use sahya_net.Types.Certified.{Certificate, Certified, decode}
use sahya_net.Types.Certified.Codec.{IsCertified, read_cfg-IsCertified}
use sahya_net.Syncer.Environment.{Environment, EnvironmentLaws}
use sahya_net.Syncer.Archive.{Stores-expect, Stores-tolerate, expect, tolerate}
use sahya_net.Syncer.Key.{MultiIndex, Value, notarized, finalized, digest, to_value}
use sahya_net.Syncer.Messages.{HandlerMessage, deliver, produce}
use sahya_net.Syncer.State.{State, Turn, Buffer}
use sahya_net.Syncer.Actor.{handler}
use sahya_net.Syncer.Resolve.{
  refuse, accept_notarized, accept_finalized, accept_block, parsed, decode_block, answer,
  deliver_value, on_deliver, payload_of, produce_value, on_produce, on_handler,
}
use sahya_net.Syncer.Agreement.{
  Network, IsGenuine, OnlyFinal, FetchesFinal, IsFinalKey, Ends, Arrives,
}

module _ {e : Environment} (laws : EnvironmentLaws e) (net : Network e) where
  decode-IsCertified :
      {I C : Type 0} (cert : Certificate I C) (bytes rest : Bytes) (n : Certified e.prim C)
      → decode e.prim cert bytes ≡ done n rest
      → IsCertified e.prim cert n
  decode-IsCertified {I} {C} cert bytes rest n h =
      read_cfg-IsCertified e.prim cert bytes [] n (
        laws.prim.decode_reads (Certified e.prim C) (Certified.read_cfg e.prim cert) bytes n rest h)

  decode_block-IsGenuine :
      (bytes rest : Bytes) (b : Block e.prim) → decode_block e bytes ≡ done b rest → IsGenuine e b
  unfolding decode_block
  decode_block-IsGenuine bytes rest b h =
      read_cfg-digest e.prim bytes [] b
        (laws.prim.decode_reads (Block e.prim) (read_cfg e.prim) bytes b rest h)

  accept_notarized-Ends :
      (view : ℕ) (n : Certified e.prim e.Notarization) (s : State e)
      → IsGenuine e n.block
      → OnlyFinal net s
      → Ends net (accept_notarized e view n s)
  unfolding accept_notarized refuse
  accept_notarized-Ends view n s genuine c =
      elim (Bool-cases (e.notarization.verify e.namespace e.identity n.proof)) [
        | inr invalid_proof ↦ rw invalid_proof (c, (tt, tt))
        | inl valid ↦ elim (Bool-cases (e.notarization.view n.proof == view)) [
          | inr other_view ↦ rw (valid, other_view) (c, (tt, tt))
          | inl same_view ↦
              elim (Option-cases
                (tolerate s.notarized (e.notarized.put view n.block.digest n s.notarized))) [
                  | inl failed ↦ rw (valid, same_view, failed) tt
                  | inr (ns, ok) ↦
                      rw (valid, same_view, ok)
                        (
                          record {
                            verified = c.verified;
                            notarized =
                                Stores-tolerate e.notarized laws.notarized
                                  (λ i k n. IsGenuine e n.block) view n.block.digest n s.notarized
                                  ns ok genuine c.notarized;
                            blocks = c.blocks;
                          },
                          (tt, tt),
                        )
                ]
        ]
      ]

  accept_finalized-Ends :
      (height : ℕ) (f : Certified e.prim e.Finalization) (s : State e)
      → IsCertified e.prim e.finalization f
      → OnlyFinal net s
      → Ends net (accept_finalized e height f s)
  unfolding accept_finalized refuse
  accept_finalized-Ends height f s certified c =
      elim (Bool-cases (e.finalization.verify e.namespace e.identity f.proof)) [
        | inr invalid_proof ↦ rw invalid_proof (c, (tt, tt))
        | inl valid ↦ elim (Bool-cases (f.block.height == height)) [
          | inr other ↦ rw (valid, other) (c, (tt, tt))
          | inl same ↦
              elim (Option-cases
                (expect (e.finalized.put height f.block.digest f.proof s.finalized))) [
                  | inl failed ↦ rw (valid, same, failed) tt
                  | inr (fs, ok) ↦
                      elim (Option-cases
                        (expect (e.blocks.put height f.block.digest f.block s.blocks))) [
                          | inl failed ↦ rw (valid, same, ok, failed) tt
                          | inr (bs, ok') ↦
                              rw (valid, same, ok, ok')
                                (
                                  record {
                                    verified = c.verified;
                                    notarized = c.notarized;
                                    blocks =
                                        Stores-expect e.blocks laws.blocks
                                          (λ i k b. IsGenuine e b × net.Final k) height
                                          f.block.digest f.block s.blocks bs ok'
                                          (
                                            certified.hashed,
                                            rw (← certified.certifies)
                                                (net.certified f.proof valid),
                                          )
                                          c.blocks;
                                  },
                                  (tt, (tt, tt)),
                                )
                        ]
                ]
        ]
      ]

  accept_block-Ends :
      (d : Digest) (b : Block e.prim) (s : State e)
      → IsGenuine e b
      → net.Final d
      → OnlyFinal net s
      → Ends net (accept_block e d b s)
  unfolding accept_block refuse
  accept_block-Ends d b s genuine final c = elim (Bool-cases (digest_eq b.digest d)) [
    | inr other ↦ rw other (c, (tt, tt))
    | inl same ↦ elim (Option-cases (expect (e.blocks.put b.height d b s.blocks))) [
      | inl failed ↦ rw (same, failed) tt
      | inr (bs, ok) ↦
          rw (same, ok)
            (
              record {
                verified = c.verified;
                notarized = c.notarized;
                blocks =
                    Stores-expect e.blocks laws.blocks (λ i k b. IsGenuine e b × net.Final k)
                      b.height d b s.blocks bs ok (genuine, final) c.blocks;
              },
              (tt, (tt, tt)),
            )
    ]
  ]

  parsed-Ends :
      {A : Type 0} (r : Reading A) (f : A → State e → Turn e) (s : State e)
      → ((a : A) (rest : Bytes) → r ≡ done a rest → Ends net (f a s))
      → OnlyFinal net s
      → Ends net (parsed e r f s)
  unfolding refuse
  parsed-Ends (done a rest) f s h c = h a rest refl
  parsed-Ends invalid f s h c = (c, (tt, tt))
  parsed-Ends panic f s h c = tt

  deliver_value-Ends :
      (v : Option Value) (value : Bytes) (s : State e)
      → ((d : Digest) → v ≡ some (digest d) → net.Final d)
      → OnlyFinal net s
      → Ends net (deliver_value e v value s)
  unfolding deliver_value
  deliver_value-Ends none value s final c = tt
  deliver_value-Ends (some (notarized view)) value s final c =
      parsed-Ends (decode e.prim e.notarization value) (accept_notarized e view) s
        (λ n rest h.
          accept_notarized-Ends view n s (decode-IsCertified e.notarization value rest n h).hashed
            c)
        c
  deliver_value-Ends (some (finalized height)) value s final c =
      parsed-Ends (decode e.prim e.finalization value) (accept_finalized e height) s
        (λ f rest h.
          accept_finalized-Ends height f s (decode-IsCertified e.finalization value rest f h) c)
        c
  deliver_value-Ends (some (digest d)) value s final c =
      parsed-Ends (decode_block e value) (accept_block e d) s
        (λ b rest h.
          accept_block-Ends d b s (decode_block-IsGenuine value rest b h) (final d refl) c)
        c

  answer-fetches : (o : Option Bytes) → All (FetchesFinal net) (answer e o)
  unfolding answer
  answer-fetches none = tt
  answer-fetches (some bytes) = (tt, tt)

  produce_value-Ends :
      (buffer : Buffer e) (v : Option Value) (s : State e)
      → OnlyFinal net s
      → Ends net (produce_value e buffer v s)
  unfolding produce_value
  produce_value-Ends buffer none s c = tt
  produce_value-Ends buffer (some v) s c = (c, answer-fetches (payload_of e buffer v s))

  Memᴰ-All :
      (key : MultiIndex) {keys : List MultiIndex}
      → Memᴰ key keys
      → All (IsFinalKey net) keys
      → IsFinalKey net key
  Memᴰ-All key (Memᴰ.head same) h = rw same h.0
  Memᴰ-All key (Memᴰ.tail m) h = Memᴰ-All key m h.1

  pub on_handler-Ends :
      (buffer : Buffer e) (h : HandlerMessage) (s : State e) (keys : List MultiIndex)
      → Arrives {e = e} keys (handler h)
      → All (IsFinalKey net) keys
      → OnlyFinal net s
      → Ends net (on_handler e buffer h s)
  unfolding on_handler on_deliver on_produce
  on_handler-Ends buffer (deliver key value) s keys arrives all_final c =
      deliver_value-Ends (to_value key) value s (Memᴰ-All key arrives all_final) c
  on_handler-Ends buffer (produce key) s keys arrives all_final c =
      produce_value-Ends buffer (to_value key) s c
