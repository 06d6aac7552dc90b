-- ===== src/Syncer/Persistence.antt =====
-- A block that the node has stored under a height is there for ever, and so is a finalization.
pub mod Loop
mod Tests
use sahya_net.Prelude.{
  ℕ, ◌-◌, ◌≡◌, refl, ◌⊎◌, inl, inr, Bool, true, false, not, Option, none, some, List, [], ◌∷◌, ◌++◌,
  Bytes, Option-cases, Bool-cases, ltb, ◌==◌, All,
}
use sahya_net.Types.Digest.{Digest, digest_eq}
use sahya_net.Types.Reading.{Reading, done, invalid, panic}
use sahya_net.Types.Block.{Block}
use sahya_net.Types.Certified.{Certificate, Certified, decode}
use sahya_net.Syncer.Environment.{Environment, EnvironmentLaws}
use sahya_net.Syncer.Archive.{Archive, ImmutableLaws, stored, expect, expect-some, tolerate}
use sahya_net.Syncer.Key.{Value, notarized, finalized, digest, to_value}
use sahya_net.Syncer.Messages.{
  Message, get, broadcast, store_verified, finalize, notarize, Orchestration, get_next, processed,
  repair, HandlerMessage, deliver, produce,
}
use sahya_net.Syncer.State.{
  State, Effect, notify_finalizer, respond_bool, Turn, Buffer, or_else, next, block_of, ◌>>=◌,
}
use sahya_net.Syncer.Consensus.{
  on_get, on_broadcast, on_store_verified, persist_finalized, finalize_found, on_finalize,
  notarize_found, on_notarize, on_message,
}
use sahya_net.Syncer.Orchestrate.{
  on_get_next, on_processed, enqueue, repair_parent, repair_or_fetch, repair_gap, on_repair,
  on_orchestration,
}
use sahya_net.Syncer.Resolve.{
  refuse, accept_notarized, accept_finalized, accept_block, parsed, decode_block, deliver_value,
  on_deliver, produce_value, on_produce, on_handler,
}
use sahya_net.Syncer.Actor.{
  Input, mailbox, orchestrator, handler, cancel_useless, on_input, turn, run,
}
use sahya_net.Syncer.Coherence.{Ensures}

-- What holds of the two archives by height.
pub record Keeps (e : Environment) (P : e.blocks.Store → Type 0) (Q : e.finalized.Store → Type 0)
    (s : State e) : Type 0 where
  pub block_at : P s.blocks
  pub finalization_at : Q s.finalized

-- No `put` ends it.
pub record IsStable (e : Environment) (P : e.blocks.Store → Type 0) (Q : e.finalized.Store → Type 0)
    : Type 0 where
  pub blocks_persist :
      (height : ℕ) (d : Digest) (block : Block e.prim) (bs bs' : e.blocks.Store)
      → e.blocks.put height d block bs ≡ stored bs'
      → P bs
      → P bs'
  pub finalized_persist :
      (height : ℕ) (d : Digest) (g : e.Finalization) (fs fs' : e.finalized.Store)
      → e.finalized.put height d g fs ≡ stored fs'
      → Q fs
      → Q fs'

-- The block at one height and the finalization at another (or the same) height.
abbrev pub Has : (e : Environment) → ℕ → Block e.prim → ℕ → e.Finalization → State e → Type 0
Has e i b j f =
    Keeps e (λ bs. e.blocks.get_index i bs ≡ some b) (λ fs. e.finalized.get_index j fs ≡ some f)

module _ (e : Environment) (P : e.blocks.Store → Type 0) (Q : e.finalized.Store → Type 0)
    (stable : IsStable e P Q) where
  abbrev pub Kept : State e → Type 0
  Kept = Keeps e P Q

  -- Two writes, one into each of the immutable archives, as a finalized block makes them.
  pub both_persist :
      (height : ℕ) (d : Digest) (g : e.Finalization) (block : Block e.prim) (s : State e)
      (k : e.finalized.Store → e.blocks.Store → State e × List (Effect e))
      → Kept s
      → ((fs : e.finalized.Store) (bs : e.blocks.Store) → Q fs → P bs → Kept (k fs bs).0)
      → Ensures e Kept (
          expect (e.finalized.put height d g s.finalized) >>= λ fs.
          expect (e.blocks.put height d block s.blocks) >>= λ bs. some (k fs bs))
  both_persist height d g block s k h rest =
      elim (Option-cases (expect (e.finalized.put height d g s.finalized))) [
        | inl failed ↦ rw failed tt
        | inr (fs, ok) ↦ elim (Option-cases (expect (e.blocks.put height d block s.blocks))) [
          | inl failed ↦ rw (ok, failed) tt
          | inr (bs, ok') ↦
              rw (ok, ok')
                (rest fs bs
                  (stable.finalized_persist height d g s.finalized fs
                    (expect-some (e.finalized.put height d g s.finalized) fs ok) h.finalization_at)
                  (stable.blocks_persist height d block s.blocks bs
                    (expect-some (e.blocks.put height d block s.blocks) bs ok') h.block_at))
        ]
      ]

  pub block_persists :
      (height : ℕ) (d : Digest) (block : Block e.prim) (s : State e) (effects : List (Effect e))
      → Kept s
      → Ensures e Kept (
          expect (e.blocks.put height d block s.blocks) >>= λ bs.
          some (record s { blocks = bs }, effects))
  block_persists height d block s effects h =
      elim (Option-cases (expect (e.blocks.put height d block s.blocks))) [
        | inl failed ↦ rw failed tt
        | inr (bs, ok) ↦ rw ok (record {
          block_at =
              stable.blocks_persist height d block s.blocks bs
                (expect-some (e.blocks.put height d block s.blocks) bs ok) h.block_at;
          finalization_at = h.finalization_at;
        })
      ]

  finalize_found-keeps :
      (g : e.Finalization) (o : Option (Block e.prim)) (s : State e)
      → Kept s
      → Ensures e Kept (finalize_found e g o s)
  unfolding finalize_found
  finalize_found-keeps g none s h = h
  finalize_found-keeps g (some block) s h =
      both_persist block.height (e.finalization.payload g) g block s
        (λ fs bs. (
          record s {
            finalized = fs;
            blocks = bs;
            verified = e.verified.prune (s.last_view_processed - e.activity_timeout) s.verified;
            notarized = e.notarized.prune (s.last_view_processed - e.activity_timeout) s.notarized;
            latest_view = e.finalization.view g;
          },
          notify_finalizer ∷ [],
        ))
        h (λ fs bs hf hb. record { block_at = hb; finalization_at = hf })

  notarize_found-keeps :
      (n : e.Notarization) (o : Option (Block e.prim)) (s : State e)
      → Kept s
      → Ensures e Kept (notarize_found e n o s)
  unfolding notarize_found
  notarize_found-keeps n none s h = record {
    block_at = h.block_at;
    finalization_at = h.finalization_at;
  }
  notarize_found-keeps n (some block) s h =
      let item : Certified e.prim e.Notarization = record { proof = n; block = block } in
      elim (Option-cases (
        tolerate s.notarized
          (e.notarized.put (e.notarization.view n) (e.notarization.payload n) item s.notarized))) [
            | inl failed ↦ rw failed tt
            | inr (ns, ok) ↦
                rw ok (record { block_at = h.block_at; finalization_at = h.finalization_at })
          ]

  pub on_message-keeps :
      (buffer : Buffer e) (m : Message e) (s : State e)
      → Kept s
      → Ensures e Kept (on_message e buffer m s)
  unfolding on_message on_get on_broadcast on_store_verified on_finalize on_notarize
  on_message-keeps buffer (get view d) s h = h
  on_message-keeps buffer (broadcast block) s h = h
  on_message-keeps buffer (store_verified view block) s h =
      elim (Option-cases
        (tolerate s.verified (e.verified.put view block.digest block s.verified))) [
          | inl failed ↦ rw failed tt
          | inr (vs, ok) ↦
              rw ok (record { block_at = h.block_at; finalization_at = h.finalization_at })
        ]
  on_message-keeps buffer (finalize g) s h = finalize_found-keeps g _ s h
  on_message-keeps buffer (notarize n) s h = notarize_found-keeps n _ s h
