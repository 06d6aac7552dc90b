-- ===== src/Syncer/Resolve.antt =====
-- syncer/src/actor.rs, the messages of the resolver: what peers deliver, and what they ask for.
use sahya_net.Prelude.{
  ℕ, true, false, Option, none, some, List, [], ◌∷◌, Bytes, not, ◌==◌, if◌then◌else◌,
}
use sahya_net.Types.Digest.{Digest, digest_eq}
use sahya_net.Types.Reading.{Reading, done, invalid, panic}
use sahya_net.Types.Block
use sahya_net.Types.Block.{Block}
use sahya_net.Types.Certified
use sahya_net.Types.Certified.{Certificate, Certified, decode}
use sahya_net.Syncer.Environment.{Environment}
use sahya_net.Syncer.Archive.{expect, tolerate}
use sahya_net.Syncer.Key.{MultiIndex, Value, notarized, finalized, digest, to_value}
use sahya_net.Syncer.Messages.{HandlerMessage, deliver, produce}
use sahya_net.Syncer.State.{
  State, Effect, notify_finalizer, respond_bool, respond_bytes, Turn, Buffer, ◌>>=◌, next,
}

module _ (e : Environment) where
  unfoldable pub refuse : State e → Turn e
  refuse s = some (s, respond_bool false ∷ [])

  -- The certificate must verify, and be for the view that was asked for.
  unfoldable pub accept_notarized : ℕ → Certified e.prim e.Notarization → State e → Turn e
  unfolding refuse
  accept_notarized view n s =
      if not (e.notarization.verify e.namespace e.identity n.proof)
      then refuse s
      else if not (e.notarization.view n.proof == view)
      then refuse s
      else (tolerate s.notarized (e.notarized.put view n.block.digest n s.notarized) >>= λ archive.
          some (record s { notarized = archive }, respond_bool true ∷ []))

  -- The certificate must verify, and the block must have the height that was asked for.
  unfoldable pub accept_finalized : ℕ → Certified e.prim e.Finalization → State e → Turn e
  unfolding refuse
  accept_finalized height f s =
      if not (e.finalization.verify e.namespace e.identity f.proof)
      then refuse s
      else if not (f.block.height == height)
      then refuse s
      else (expect (e.finalized.put height f.block.digest f.proof s.finalized) >>= λ finalizations.
          expect (e.blocks.put height f.block.digest f.block s.blocks) >>= λ blocks. some (
            record s { finalized = finalizations; blocks = blocks },
            respond_bool true ∷ notify_finalizer ∷ [],
          ))

  -- The block must have the digest that was asked for.
  unfoldable pub accept_block : Digest → Block e.prim → State e → Turn e
  unfolding refuse
  accept_block d block s =
      if not (digest_eq block.digest d)
      then refuse s
      else (expect (e.blocks.put block.height d block s.blocks) >>= λ blocks.
          some (record s { blocks = blocks }, respond_bool true ∷ notify_finalizer ∷ []))

  -- `let Ok(..) = decode(..) else`: an error is refused, a panic of the decoder is one of the loop.
  abbrev pub parsed : {A : Type 0} → Reading A → (A → State e → Turn e) → State e → Turn e
  parsed (done a rest) f s = f a s
  parsed invalid f s = refuse s
  parsed panic f s = none

  unfoldable pub decode_block : Bytes → Reading (Block e.prim)
  decode_block value = e.prim.decode (Block e.prim) (Block.read_cfg e.prim) value

  unfoldable pub deliver_value : Option Value → Bytes → State e → Turn e
  deliver_value none value s = none
  deliver_value (some (notarized view)) value s =
      parsed (decode e.prim e.notarization value) (accept_notarized view) s
  deliver_value (some (finalized height)) value s =
      parsed (decode e.prim e.finalization value) (accept_finalized height) s
  deliver_value (some (digest d)) value s = parsed (decode_block value) (accept_block d) s

  -- `handler::Message::Deliver`; a key that has no value panics.
  unfoldable pub on_deliver : MultiIndex → Bytes → State e → Turn e
  unfolding deliver_value
  on_deliver key value s = deliver_value (to_value key) value s

  -- The answer to a peer, if there is one; without one the response channel is dropped.
  unfoldable pub answer : Option Bytes → List (Effect e)
  answer none = []
  answer (some bytes) = respond_bytes bytes ∷ []

  abbrev pub encode_block : Option (Block e.prim) → Option Bytes
  encode_block none = none
  encode_block (some b) = some (Block.write e.prim b)

  abbrev encode_notarized : Option (Certified e.prim e.Notarization) → Option Bytes
  encode_notarized none = none
  encode_notarized (some n) = some (Certified.write e.prim e.notarization n)

  abbrev encode_finalized : Option e.Finalization → Option (Block e.prim) → Option Bytes
  encode_finalized none block = none
  encode_finalized (some f) none = none
  encode_finalized (some f) (some b) =
      some (Certified.write e.prim e.finalization (record { proof = f; block = b }))

  abbrev first_bytes : Option Bytes → Option Bytes → Option Bytes
  first_bytes none rest = rest
  first_bytes (some bytes) rest = some bytes

  -- What a peer is sent for a value. For a digest in the notarized archive it is the notarization with
  -- its block.
  unfoldable pub payload_of : Buffer e → Value → State e → Option Bytes
  payload_of buffer (notarized view) s = encode_notarized (e.notarized.get_index view s.notarized)
  payload_of buffer (finalized height) s =
      encode_finalized (e.finalized.get_index height s.finalized)
        (e.blocks.get_index height s.blocks)
  payload_of buffer (digest d) s = first_bytes (encode_block (next (buffer d))) (
      first_bytes (encode_block (e.verified.get_key d s.verified)) (
        first_bytes (encode_notarized (e.notarized.get_key d s.notarized))
          (encode_block (e.blocks.get_key d s.blocks))))

  unfoldable pub produce_value : Buffer e → Option Value → State e → Turn e
  unfolding answer payload_of
  produce_value buffer none s = none
  produce_value buffer (some v) s = some (s, answer (payload_of buffer v s))

  -- `handler::Message::Produce`; a key that has no value panics.
  unfoldable pub on_produce : Buffer e → MultiIndex → State e → Turn e
  unfolding produce_value
  on_produce buffer key s = produce_value buffer (to_value key) s

  unfoldable pub on_handler : Buffer e → HandlerMessage → State e → Turn e
  on_handler buffer (deliver key value) s = on_deliver key value s
  on_handler buffer (produce key) s = on_produce buffer key s
