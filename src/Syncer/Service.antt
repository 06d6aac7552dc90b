-- ===== src/Syncer/Service.antt =====
-- What one node sends to another: a node that asks a peer for a key accepts what a coherent peer
-- answers, and no turn takes a block from a peer that it has refused.
mod Tests
use sahya_net.Prelude.{
  ℕ, ◌<◌, ◌^◌, ◌≡◌, refl, sym, ap, ◌∙◌, ◌⊎◌, inl, inr, Bool, true, false, not, Option, none, some,
  List, [], ◌∷◌, ◌++◌, Bytes, bytes_eq_refl, bytes_eq_iff, ◌==◌, ==_refl, eq→==, Option-cases,
  Bool-cases, arith,
}
use mathlib.Core.List.{append-nil}
use sahya_net.Types.Digest.{Digest, IsDigest, digest_eq}
use sahya_net.Types.Reading.{Reading, done, invalid, panic}
use sahya_net.Types.Block
use sahya_net.Types.Block.{Block}
use sahya_net.Types.Block.Codec.{IsBlock, rehash, read_cfg-write_same}
use sahya_net.Types.Certified
use sahya_net.Types.Certified.{Certificate, Certified, decode}
use sahya_net.Types.Certified.Codec.{IsCertified, certified_decode-write}
use sahya_net.Syncer.Environment.{Environment, EnvironmentLaws}
use sahya_net.Syncer.Archive.{Archive, expect, tolerate}
use sahya_net.Syncer.Key.{Value, notarized, finalized, digest, new, to_value, IsValue}
use sahya_net.Syncer.Key.RoundTrip.{to_value-new}
use sahya_net.Syncer.State.{
  State, Effect, respond_bytes, respond_bool, notify_finalizer, Turn, Buffer, next, ◌>>=◌,
}
use sahya_net.Syncer.Consensus.{find_block}
use sahya_net.Syncer.Resolve.{
  accept_notarized, accept_finalized, accept_block, parsed, decode_block, deliver_value, on_deliver,
  payload_of, produce_value, on_produce, answer, refuse, encode_block,
}
use sahya_net.Syncer.Coherence.{IsCoherent, IsBuffer}

module _ (e : Environment) where
  -- A block as the network carries it: in range, and with the digest of its fields.
  pub record IsSound (b : Block e.prim) : Type 0 where
    pub range : IsBlock e.prim b
    pub hashed : rehash e.prim b ≡ b

  accept_notarized_lem :
      (view : ℕ) (n : Certified e.prim e.Notarization) (s : State e) {ns : e.notarized.Store}
      → e.notarization.verify e.namespace e.identity n.proof ≡ true
      → e.notarization.view n.proof ≡ view
      → tolerate s.notarized (e.notarized.put view n.block.digest n s.notarized) ≡ some ns
      → accept_notarized e view n s ≡ some (record s { notarized = ns }, respond_bool true ∷ [])
  unfolding accept_notarized
  accept_notarized_lem view n s valid same ok = rw (valid, same, ==_refl, ok)

  accept_finalized_lem :
      (height : ℕ) (f : Certified e.prim e.Finalization) (s : State e) {fs : e.finalized.Store}
      {bs : e.blocks.Store}
      → e.finalization.verify e.namespace e.identity f.proof ≡ true
      → (f.block.height == height) ≡ true
      → expect (e.finalized.put height f.block.digest f.proof s.finalized) ≡ some fs
      → expect (e.blocks.put height f.block.digest f.block s.blocks) ≡ some bs
      → accept_finalized e height f s
        ≡ some (record s { finalized = fs; blocks = bs }, respond_bool true ∷ notify_finalizer ∷ [])
  unfolding accept_finalized
  accept_finalized_lem height f s valid same ok ok' = rw (valid, same, ok, ok')

  accept_block_lem :
      (d : Digest) (b : Block e.prim) (s : State e) {bs : e.blocks.Store}
      → digest_eq b.digest d ≡ true
      → expect (e.blocks.put b.height d b s.blocks) ≡ some bs
      → accept_block e d b s
        ≡ some (record s { blocks = bs }, respond_bool true ∷ notify_finalizer ∷ [])
  unfolding accept_block
  accept_block_lem d b s same ok = rw (same, ok)

module _ (e : Environment) (laws : EnvironmentLaws e) where
  -- A node with coherent archives that holds a verified notarization for a view, with a sound block,
  -- answers a request for that view with bytes that any node of the same network, whose storage does
  -- not fail, accepts for the same request: it answers `true` and stores the notarization.
  pub notarized_travels :
      (buffer : Buffer e) (view : ℕ) (n : Certified e.prim e.Notarization) (s r : State e)
      {archive : e.notarized.Store}
      → view < 2 ^ 64
      → IsCoherent e s
      → e.notarized.get_index view s.notarized ≡ some n
      → IsSound e n.block
      → e.notarization.verify e.namespace e.identity n.proof ≡ true
      → tolerate r.notarized (e.notarized.put view n.block.digest n r.notarized) ≡ some archive
      → (bytes : Bytes) × (on_produce e buffer (new (notarized view)) s
          ≡ some (s, respond_bytes bytes ∷ []))
        × (on_deliver e (new (notarized view)) bytes r
            ≡ some (record r { notarized = archive }, respond_bool true ∷ []))
  unfolding on_produce produce_value answer on_deliver deliver_value
  notarized_travels buffer view n s r range c found sound valid room =
      let (k, held) = laws.notarized.get_index-Holds view s.notarized n found in
      let facts = c.notarized view k n held in
      let certified : IsCertified e.prim e.notarization n = record {
        certifies = facts.1 ∙ sym facts.2;
        hashed = sound.hashed;
      } in
      (
        Certified.write e.prim e.notarization n,
        rw (to_value-new (notarized view) range, found),
        rw (to_value-new (notarized view) range) (
            rw
              (certified_decode-write e.prim e.notarization laws.prim laws.notarization n
                sound.range certified)
              (accept_notarized_lem e view n r valid facts.0 room)),
      )

  -- A node with coherent archives that holds a verified finalization for a height and, under that
  -- height, the sound block that it finalizes answers a request for the height with bytes that any node
  -- of the same network, whose storage does not fail, accepts: it answers `true`, stores both and
  -- notifies its finalizer.
  pub finalized_travels :
      (buffer : Buffer e) (height : ℕ) (f : e.Finalization) (b : Block e.prim) (s r : State e)
      {finalizations : e.finalized.Store} {stored : e.blocks.Store}
      → height < 2 ^ 64
      → IsCoherent e s
      → e.finalized.get_index height s.finalized ≡ some f
      → e.blocks.get_index height s.blocks ≡ some b
      → e.finalization.payload f ≡ b.digest
      → IsSound e b
      → e.finalization.verify e.namespace e.identity f ≡ true
      → expect (e.finalized.put height b.digest f r.finalized) ≡ some finalizations
      → expect (e.blocks.put height b.digest b r.blocks) ≡ some stored
      → (bytes : Bytes) × (on_produce e buffer (new (finalized height)) s
          ≡ some (s, respond_bytes bytes ∷ []))
        × (on_deliver e (new (finalized height)) bytes r
            ≡ some (
              record r { finalized = finalizations; blocks = stored },
              respond_bool true ∷ notify_finalizer ∷ [],
            ))
  unfolding on_produce produce_value answer on_deliver deliver_value
  finalized_travels buffer height f b s r range c hasf hasb proves sound valid room room' =
      let (k, held) = laws.blocks.get_index-Holds height s.blocks b hasb in
      let item : Certified e.prim e.Finalization = record { proof = f; block = b } in
      let certified : IsCertified e.prim e.finalization item = record {
        certifies = proves;
        hashed = sound.hashed;
      } in
      (
        Certified.write e.prim e.finalization item,
        rw (to_value-new (finalized height) range, hasf, hasb),
        rw (to_value-new (finalized height) range) (
            rw
              (certified_decode-write e.prim e.finalization laws.prim laws.finalization item
                sound.range certified)
              (accept_finalized_lem e height item r valid (eq→== (c.blocks height k b held).0) room
                room')),
      )

  payload_of-digest :
      (buffer : Buffer e) (d : Digest) (s : State e)
      → e.notarized.get_key d s.notarized ≡ none
      → payload_of e buffer (digest d) s ≡ encode_block e (find_block e buffer d s)
  unfolding payload_of find_block
  payload_of-digest buffer d s absent = ground (arith, absent)

  decode_block-write :
      (b : Block e.prim) → IsSound e b → decode_block e (Block.write e.prim b) ≡ done b []
  unfolding decode_block
  decode_block-write b sound =
      laws.prim.decode_done (Block e.prim) (Block.read_cfg e.prim) (Block.write e.prim b) b (
        ap (Block.read_cfg e.prim) (sym (append-nil (Block.write e.prim b)))
        ∙ read_cfg-write_same e.prim laws.prim b [] sound.range sound.hashed)

  -- A node that finds a block in range for a digest, with the digest of its fields, in its buffer
  -- or its archives, and has no notarization for the digest, answers a request for the digest with bytes that any node, whose storage does
  -- not fail, accepts: it answers `true`, stores the block under its height and notifies its
  -- finalizer.
  pub block_travels :
      (buffer : Buffer e) (b : Block e.prim) (s r : State e) {stored : e.blocks.Store}
      → IsDigest b.digest
      → e.notarized.get_key b.digest s.notarized ≡ none
      → find_block e buffer b.digest s ≡ some b
      → IsSound e b
      → expect (e.blocks.put b.height b.digest b r.blocks) ≡ some stored
      → (bytes : Bytes) × (on_produce e buffer (new (digest b.digest)) s
          ≡ some (s, respond_bytes bytes ∷ []))
        × (on_deliver e (new (digest b.digest)) bytes r
            ≡ some (record r { blocks = stored }, respond_bool true ∷ notify_finalizer ∷ []))
  unfolding on_produce produce_value answer on_deliver deliver_value
  block_travels buffer b s r size absent found sound room = (
    Block.write e.prim b,
    rw (to_value-new (digest b.digest) size, payload_of-digest buffer b.digest s absent, found),
    rw (to_value-new (digest b.digest) size) (
        rw (decode_block-write b sound)
          (accept_block_lem e b.digest b r (bytes_eq_refl b.digest) room)),
  )
