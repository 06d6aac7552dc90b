-- ===== src/Syncer/Liveness.antt =====
-- When the loop of the syncer goes on: with a storage that does not fail and peers that send keys and
-- values that can be read, no message makes it panic.
mod Tests
use sahya_net.Prelude.{
  ℕ, ◌≡◌, ◌≢◌, refl, ◌⊎◌, inl, inr, Bool, true, false, not, Option, none, some, List, [], ◌∷◌, ◌++◌,
  All, Bytes, Option-cases, Bool-cases, ltb, ◌==◌,
}
use sahya_net.Types.Digest.{Digest, digest_eq}
use sahya_net.Types.Reading.{Reading, done, invalid, panic}
use sahya_net.Types.Block.{Block}
use sahya_net.Types.Certified.{Certificate, Certified, decode}
use sahya_net.Syncer.Environment.{Environment, EnvironmentLaws}
use sahya_net.Syncer.Archive.{Archive, expect, tolerate}
use sahya_net.Syncer.Key.{MultiIndex, Value, notarized, finalized, digest, to_value}
use sahya_net.Syncer.Messages.{
  Message, get, broadcast, store_verified, finalize, notarize, Orchestration, get_next, processed,
  repair, HandlerMessage, deliver, produce,
}
use sahya_net.Syncer.State.{State, Effect, Turn, Buffer, next, or_else, block_of, ◌>>=◌}
use sahya_net.Syncer.Consensus.{
  on_get, on_broadcast, on_store_verified, persist_finalized, finalize_found, on_finalize,
  notarize_found, on_notarize, on_message,
}
use sahya_net.Syncer.Orchestrate.{
  on_get_next, on_processed, enqueue, repair_parent, repair_or_fetch, repair_gap, on_repair,
  on_orchestration,
}
use sahya_net.Syncer.Resolve.{
  refuse, accept_notarized, accept_finalized, accept_block, parsed, decode_block, deliver_value,
  on_deliver, produce_value, on_produce, on_handler,
}
use sahya_net.Syncer.Actor.{
  Input, mailbox, orchestrator, handler, cancel_useless, on_input, turn, run,
}

module _ (e : Environment) where
  -- No `put` fails, and none on the immutable archives is refused.
  pub record IsHealthy : Type 0 where
    pub verified :
        (i : ℕ) (k : Digest) (v : Block e.prim) (s : e.verified.Store)
        → (s' : e.verified.Store) × (tolerate s (e.verified.put i k v s) ≡ some s')
    pub notarized :
        (i : ℕ) (k : Digest) (v : Certified e.prim e.Notarization) (s : e.notarized.Store)
        → (s' : e.notarized.Store) × (tolerate s (e.notarized.put i k v s) ≡ some s')
    pub finalized :
        (i : ℕ) (k : Digest) (v : e.Finalization) (s : e.finalized.Store)
        → (s' : e.finalized.Store) × (expect (e.finalized.put i k v s) ≡ some s')
    pub blocks :
        (i : ℕ) (k : Digest) (v : Block e.prim) (s : e.blocks.Store)
        → (s' : e.blocks.Store) × (expect (e.blocks.put i k v s) ≡ some s')

  -- The decoder of the value does not panic on the bytes.
  abbrev pub IsWhole : Value → Bytes → Type 0
  IsWhole (notarized view) value = decode e.prim e.notarization value ≢ panic
  IsWhole (finalized height) value = decode e.prim e.finalization value ≢ panic
  IsWhole (digest d) value = decode_block e value ≢ panic

  abbrev pub IsReadable : Input e → Type 0
  IsReadable (mailbox m) = Unit
  IsReadable (orchestrator o) = Unit
  IsReadable (handler (deliver key value)) = (v : Value) × (to_value key ≡ some v) × IsWhole v value
  IsReadable (handler (produce key)) = (v : Value) × (to_value key ≡ some v)

  abbrev pub Returns : Turn e → Type 0
  Returns t = (r : State e × List (Effect e)) × (t ≡ some r)

module _ (e : Environment) (laws : EnvironmentLaws e) (healthy : IsHealthy e) where
  finalize_found-Returns :
      (f : e.Finalization) (o : Option (Block e.prim)) (s : State e)
      → Returns e (finalize_found e f o s)
  unfolding finalize_found persist_finalized
  finalize_found-Returns f none s = (_, refl)
  finalize_found-Returns f (some b) s =
      let (fs, ok) = healthy.finalized b.height (e.finalization.payload f) f s.finalized in
      let (bs, ok') = healthy.blocks b.height (e.finalization.payload f) b s.blocks in
      rw (ok, ok') (_, refl)

  notarize_found-Returns :
      (n : e.Notarization) (o : Option (Block e.prim)) (s : State e)
      → Returns e (notarize_found e n o s)
  unfolding notarize_found
  notarize_found-Returns n none s = (_, refl)
  notarize_found-Returns n (some b) s =
      let item : Certified e.prim e.Notarization = record { proof = n; block = b } in
      let (ns, ok) =
        healthy.notarized (e.notarization.view n) (e.notarization.payload n) item s.notarized in
      rw ok (_, refl)

  on_message-Returns :
      (buffer : Buffer e) (m : Message e) (s : State e) → Returns e (on_message e buffer m s)
  unfolding on_message on_get on_broadcast on_store_verified on_finalize on_notarize
  on_message-Returns buffer (get view d) s = (_, refl)
  on_message-Returns buffer (broadcast b) s = (_, refl)
  on_message-Returns buffer (store_verified view b) s =
      let (vs, ok) = healthy.verified view b.digest b s.verified in rw ok (_, refl)
  on_message-Returns buffer (finalize f) s = finalize_found-Returns f _ s
  on_message-Returns buffer (notarize n) s = notarize_found-Returns n _ s

  repair_or_fetch-Returns :
      (next start_next : ℕ) (target : Digest) (o : Option (Block e.prim)) (s : State e)
      → Returns e (repair_or_fetch e next start_next target o s)
  unfolding repair_or_fetch repair_parent
  repair_or_fetch-Returns next start_next target none s = (_, refl)
  repair_or_fetch-Returns next start_next target (some b) s =
      let (bs, ok) = healthy.blocks b.height target b s.blocks in rw ok (_, refl)

  repair_gap-Returns :
      (next : ℕ) (start : Option ℕ) (s : State e)
      → (e.blocks.next_gap next s.blocks).1 ≡ start
      → Returns e (repair_gap e next start s)
  unfolding repair_gap
  repair_gap-Returns next none s h = (_, refl)
  repair_gap-Returns next (some start_next) s h =
      let (above, (b, found)) = laws.blocks_immutable.next_gap-start next start_next s.blocks h in
      elim (Bool-cases (ltb 0 next)) [
        | inl later ↦ rw (later, found) (repair_or_fetch-Returns next start_next b.parent _ s)
        | inr genesis ↦ rw genesis (_, refl)
      ]

  on_orchestration-Returns : (o : Orchestration) (s : State e) → Returns e (on_orchestration e o s)
  unfolding on_orchestration on_get_next on_processed on_repair
  on_orchestration-Returns (get_next height) s = (_, refl)
  on_orchestration-Returns (processed height d) s = (_, refl)
  on_orchestration-Returns (repair next) s = repair_gap-Returns next _ s refl

  accept_notarized-Returns :
      (view : ℕ) (n : Certified e.prim e.Notarization) (s : State e)
      → Returns e (accept_notarized e view n s)
  unfolding accept_notarized refuse
  accept_notarized-Returns view n s =
      let (ns, ok) = healthy.notarized view n.block.digest n s.notarized in
      elim (Bool-cases (e.notarization.verify e.namespace e.identity n.proof)) [
        | inr bad ↦ rw bad (_, refl)
        | inl valid ↦ elim (Bool-cases (e.notarization.view n.proof == view)) [
          | inr other ↦ rw (valid, other) (_, refl)
          | inl same ↦ rw (valid, same, ok) (_, refl)
        ]
      ]

  accept_finalized-Returns :
      (height : ℕ) (f : Certified e.prim e.Finalization) (s : State e)
      → Returns e (accept_finalized e height f s)
  unfolding accept_finalized refuse
  accept_finalized-Returns height f s =
      let (fs, ok) = healthy.finalized height f.block.digest f.proof s.finalized in
      let (bs, ok') = healthy.blocks height f.block.digest f.block s.blocks in
      elim (Bool-cases (e.finalization.verify e.namespace e.identity f.proof)) [
        | inr bad ↦ rw bad (_, refl)
        | inl valid ↦ elim (Bool-cases (f.block.height == height)) [
          | inr other ↦ rw (valid, other) (_, refl)
          | inl same ↦ rw (valid, same, ok, ok') (_, refl)
        ]
      ]

  accept_block-Returns :
      (d : Digest) (b : Block e.prim) (s : State e) → Returns e (accept_block e d b s)
  unfolding accept_block refuse
  accept_block-Returns d b s =
      let (bs, ok) = healthy.blocks b.height d b s.blocks in
      elim (Bool-cases (digest_eq b.digest d)) [
        | inr other ↦ rw other (_, refl)
        | inl same ↦ rw (same, ok) (_, refl)
      ]

  parsed-Returns :
      {A : Type 0} (r : Reading A) (k : A → State e → Turn e) (s : State e)
      → r ≢ panic
      → ((a : A) → Returns e (k a s))
      → Returns e (parsed e r k s)
  unfolding refuse
  parsed-Returns (done a rest) k s whole p = p a
  parsed-Returns invalid k s whole p = (_, refl)
  parsed-Returns panic k s whole p = absurd (whole refl)

  deliver_value-Returns :
      (v : Value) (value : Bytes) (s : State e)
      → IsWhole e v value
      → Returns e (deliver_value e (some v) value s)
  unfolding deliver_value
  deliver_value-Returns (notarized view) value s whole =
      parsed-Returns _ (accept_notarized e view) s whole (λ n. accept_notarized-Returns view n s)
  deliver_value-Returns (finalized height) value s whole =
      parsed-Returns _ (accept_finalized e height) s whole
        (λ f. accept_finalized-Returns height f s)
  deliver_value-Returns (digest d) value s whole =
      parsed-Returns _ (accept_block e d) s whole (λ b. accept_block-Returns d b s)

  on_input-Returns :
      (buffer : Buffer e) (input : Input e) (s : State e)
      → IsReadable e input
      → Returns e (on_input e buffer input s)
  unfolding on_input on_handler on_deliver on_produce produce_value
  on_input-Returns buffer (mailbox m) s h = on_message-Returns buffer m s
  on_input-Returns buffer (orchestrator o) s h = on_orchestration-Returns o s
  on_input-Returns buffer (handler (deliver key value)) s h =
      rw h.1 (deliver_value-Returns h.0 value s h.2)
  on_input-Returns buffer (handler (produce key)) s h = rw h.1 (_, refl)

  turn-Returns :
      (buffer : Buffer e) (input : Input e) (s : State e)
      → IsReadable e input
      → Returns e (turn e buffer input s)
  unfolding turn
  turn-Returns buffer input s h =
      let (r, ok) = on_input-Returns buffer input (cancel_useless e s).0 h in rw ok (_, refl)

  -- If no `put` fails or is refused by an immutable archive, and peers send keys that have a value and
  -- values on which the decoder does not panic, the loop takes any messages from any state and buffers
  -- without a panic.
  pub run-Returns :
      (inputs : List (Buffer e × Input e)) (s : State e)
      → All (λ i. IsReadable e i.1) inputs
      → Returns e (run e inputs s)
  unfolding run
  run-Returns [] s h = (_, refl)
  run-Returns ((buffer, input) ∷ rest) s h =
      let (r, ok) = turn-Returns buffer input s h.0 in
      let (last, ok') = run-Returns rest r.0 h.1 in rw (ok, ok') (_, refl)
