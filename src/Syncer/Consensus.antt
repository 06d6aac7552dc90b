-- ===== src/Syncer/Consensus.antt =====
-- syncer/src/actor.rs, the messages of the consensus engine and the application: one function for each
-- arm of `match message`.
use sahya_net.Prelude.{ℕ, ◌-◌, Option, none, some, List, [], ◌∷◌, insert}
use sahya_net.Types.Digest.{Digest}
use sahya_net.Types.Block.{Block}
use sahya_net.Syncer.Environment.{Environment}
use sahya_net.Syncer.Archive.{expect, tolerate}
use sahya_net.Syncer.Key.{notarized, digest, new}
use sahya_net.Syncer.Messages.{Message, get, broadcast, store_verified, finalize, notarize}
use sahya_net.Syncer.State.{
  State, Effect, fetch, buffer_broadcast, subscribe_prepared, notify_finalizer, respond_block, Turn,
  Buffer, ◌>>=◌, next, or_else, block_of,
}

module _ (e : Environment) where
  -- The places where a block is looked for by its digest: the buffer and the verified, notarized and
  -- finalized blocks.
  unfoldable pub find_block : Buffer e → Digest → State e → Option (Block e.prim)
  find_block buffer d s = or_else (next (buffer d)) (
      or_else (e.verified.get_key d s.verified)
        (or_else (block_of e (e.notarized.get_key d s.notarized)) (e.blocks.get_key d s.blocks)))

  unfoldable pub answer_get : Option ℕ → Digest → Option (Block e.prim) → List (Effect e)
  answer_get view d (some block) = respond_block block ∷ []
  answer_get none d none = subscribe_prepared d ∷ []
  answer_get (some view) d none = fetch (new (notarized view)) ∷ subscribe_prepared d ∷ []

  -- `Message::Get`
  unfoldable pub on_get : Buffer e → Option ℕ → Digest → State e → Turn e
  unfolding answer_get find_block
  on_get buffer view d s = some (s, answer_get view d (find_block buffer d s))

  -- `Message::Broadcast`
  unfoldable pub on_broadcast : Block e.prim → State e → Turn e
  on_broadcast block s = some (s, buffer_broadcast block ∷ [])

  -- `Message::StoreVerified`
  unfoldable pub on_store_verified : ℕ → Block e.prim → State e → Turn e
  on_store_verified view block s = do
    verified ← tolerate s.verified (e.verified.put view block.digest block s.verified)
    some (record s { verified = verified }, [])

  -- A finalization with its block: both are stored, old views are pruned, the finalizer is told.
  unfoldable pub persist_finalized : e.Finalization → Block e.prim → State e → Turn e
  persist_finalized f block s = do
    let payload = e.finalization.payload f
    finalized ← expect (e.finalized.put block.height payload f s.finalized)
    blocks ← expect (e.blocks.put block.height payload block s.blocks)
    let min_view = s.last_view_processed - e.activity_timeout
    some (
      record s {
        finalized = finalized;
        blocks = blocks;
        verified = e.verified.prune min_view s.verified;
        notarized = e.notarized.prune min_view s.notarized;
        latest_view = e.finalization.view f;
      },
      notify_finalizer ∷ [],
    )

  unfoldable pub finalize_found : e.Finalization → Option (Block e.prim) → State e → Turn e
  unfolding persist_finalized
  finalize_found f (some block) s = persist_finalized f block s
  finalize_found f none s = some (s, fetch (new (digest (e.finalization.payload f))) ∷ [])

  -- `Message::Finalize`
  unfoldable pub on_finalize : Buffer e → e.Finalization → State e → Turn e
  unfolding finalize_found
  on_finalize buffer f s =
      let payload = e.finalization.payload f in
      finalize_found f
        (or_else (next (buffer payload)) (
          or_else (e.verified.get_key payload s.verified)
            (block_of e (e.notarized.get_key payload s.notarized))))
        s

  unfoldable pub notarize_found : e.Notarization → Option (Block e.prim) → State e → Turn e
  notarize_found n (some block) s = do
    let view = e.notarization.view n
    archive ← tolerate s.notarized (
        e.notarized.put view (e.notarization.payload n) (record { proof = n; block = block })
          s.notarized)
    some (record s { notarized = archive }, [])
  notarize_found n none s =
      let view = e.notarization.view n in
      some (
        record s { outstanding_notarize = insert view s.outstanding_notarize },
        fetch (new (notarized view)) ∷ [],
      )

  -- `Message::Notarize`
  unfoldable pub on_notarize : Buffer e → e.Notarization → State e → Turn e
  unfolding notarize_found
  on_notarize buffer n s =
      let payload = e.notarization.payload n in
      notarize_found n (or_else (next (buffer payload)) (e.verified.get_key payload s.verified)) s

  unfoldable pub on_message : Buffer e → Message e → State e → Turn e
  on_message buffer (get view d) s = on_get buffer view d s
  on_message buffer (broadcast block) s = on_broadcast block s
  on_message buffer (store_verified view block) s = on_store_verified view block s
  on_message buffer (finalize f) s = on_finalize buffer f s
  on_message buffer (notarize n) s = on_notarize buffer n s
