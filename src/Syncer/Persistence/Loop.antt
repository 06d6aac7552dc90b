-- ===== src/Syncer/Persistence/Loop.antt =====
-- The handlers of the other two channels, and the loop, lose no stored block and no finalization.
use sahya_net.Prelude.{
  ℕ, ◌≡◌, inl, inr, true, Option, none, some, List, [], ◌∷◌, Bytes, Option-cases, Bool-cases, ltb,
  ◌==◌,
}
use sahya_net.Types.Digest.{Digest, digest_eq}
use sahya_net.Types.Reading.{Reading, done, invalid, panic}
use sahya_net.Types.Block.{Block}
use sahya_net.Types.Certified.{Certified}
use sahya_net.Syncer.Environment.{Environment, EnvironmentLaws}
use sahya_net.Syncer.Archive.{tolerate}
use sahya_net.Syncer.Key.{Value, notarized, finalized, digest, to_value}
use sahya_net.Syncer.Messages.{
  Orchestration, get_next, processed, repair, HandlerMessage, deliver, produce,
}
use sahya_net.Syncer.State.{Effect, State, notify_finalizer, respond_bool, Turn, Buffer}
use sahya_net.Syncer.Orchestrate.{
  on_get_next, on_processed, enqueue, repair_parent, repair_or_fetch, repair_gap, on_repair,
  on_orchestration,
}
use sahya_net.Syncer.Resolve.{
  refuse, accept_notarized, accept_finalized, accept_block, parsed, deliver_value, on_deliver,
  produce_value, on_produce, on_handler,
}
use sahya_net.Syncer.Actor.{
  Input, mailbox, orchestrator, handler, cancel_useless, on_input, turn, run,
}
use sahya_net.Syncer.Coherence.{Ensures, Ensures-map, Ensures-some}
use sahya_net.Syncer.Persistence
use sahya_net.Syncer.Persistence.{Keeps, IsStable, Has}

module _ (e : Environment) (P : e.blocks.Store → Type 0) (Q : e.finalized.Store → Type 0)
    (stable : IsStable e P Q) where
  abbrev Kept : State e → Type 0
  Kept = Keeps e P Q

  repair_or_fetch-keeps :
      (next start_next : ℕ) (target : Digest) (o : Option (Block e.prim)) (s : State e)
      → Kept s
      → Ensures e Kept (repair_or_fetch e next start_next target o s)
  unfolding repair_or_fetch enqueue repair_parent
  repair_or_fetch-keeps next start_next target none s h = record {
    block_at = h.block_at;
    finalization_at = h.finalization_at;
  }
  repair_or_fetch-keeps next start_next target (some block) s h =
      Persistence.block_persists e P Q stable block.height target block s (respond_bool true ∷ []) h

  repair_gap-keeps :
      (next : ℕ) (start : Option ℕ) (s : State e)
      → Kept s
      → Ensures e Kept (repair_gap e next start s)
  unfolding repair_gap enqueue
  repair_gap-keeps next none s h = h
  repair_gap-keeps next (some start_next) s h = elim (Bool-cases (ltb 0 next)) [
    | inr genesis ↦
        rw genesis (record { block_at = h.block_at; finalization_at = h.finalization_at })
    | inl above ↦ elim (Option-cases (e.blocks.get_index start_next s.blocks)) [
      | inl missing ↦ rw (above, missing) tt
      | inr (gapped, found) ↦
          rw (above, found) (repair_or_fetch-keeps next start_next gapped.parent _ s h)
    ]
  ]

  on_orchestration-keeps :
      (o : Orchestration) (s : State e) → Kept s → Ensures e Kept (on_orchestration e o s)
  unfolding on_orchestration on_get_next on_processed on_repair
  on_orchestration-keeps (get_next height) s h = h
  on_orchestration-keeps (processed height d) s h = record {
    block_at = h.block_at;
    finalization_at = h.finalization_at;
  }
  on_orchestration-keeps (repair next) s h =
      repair_gap-keeps next (e.blocks.next_gap next s.blocks).1 s h

  accept_notarized-keeps :
      (view : ℕ) (n : Certified e.prim e.Notarization) (s : State e)
      → Kept s
      → Ensures e Kept (accept_notarized e view n s)
  unfolding accept_notarized
  accept_notarized-keeps view n s h =
      elim (Bool-cases (e.notarization.verify e.namespace e.identity n.proof)) [
        | inr bad ↦ rw bad h
        | inl valid ↦ elim (Bool-cases (e.notarization.view n.proof == view)) [
          | inr other ↦ rw (valid, other) h
          | inl same ↦
              elim (Option-cases
                (tolerate s.notarized (e.notarized.put view n.block.digest n s.notarized))) [
                  | inl failed ↦ rw (valid, same, failed) tt
                  | inr (ns, ok) ↦
                      rw (valid, same, ok)
                        (record { block_at = h.block_at; finalization_at = h.finalization_at })
                ]
        ]
      ]

  accept_finalized-keeps :
      (height : ℕ) (g : Certified e.prim e.Finalization) (s : State e)
      → Kept s
      → Ensures e Kept (accept_finalized e height g s)
  unfolding accept_finalized
  accept_finalized-keeps height g s h =
      elim (Bool-cases (e.finalization.verify e.namespace e.identity g.proof)) [
        | inr bad ↦ rw bad h
        | inl valid ↦ elim (Bool-cases (g.block.height == height)) [
          | inr other ↦ rw (valid, other) h
          | inl same ↦
              rw (valid, same)
                (Persistence.both_persist e P Q stable height g.block.digest g.proof g.block s
                  (λ fs bs. (
                    record s { finalized = fs; blocks = bs },
                    respond_bool true ∷ notify_finalizer ∷ [],
                  ))
                  h (λ fs bs hf hb. record { block_at = hb; finalization_at = hf }))
        ]
      ]

  accept_block-keeps :
      (d : Digest) (block : Block e.prim) (s : State e)
      → Kept s
      → Ensures e Kept (accept_block e d block s)
  unfolding accept_block
  accept_block-keeps d block s h = elim (Bool-cases (digest_eq block.digest d)) [
    | inr other ↦ rw other h
    | inl same ↦ rw same (
        Persistence.block_persists e P Q stable block.height d block s
          (respond_bool true ∷ notify_finalizer ∷ []) h)
  ]

  parsed-keeps :
      {A : Type 0} (r : Reading A) (k : A → State e → Turn e) (s : State e)
      → ((a : A) → Ensures e Kept (k a s))
      → Kept s
      → Ensures e Kept (parsed e r k s)
  unfolding refuse
  parsed-keeps (done a rest) k s p h = p a
  parsed-keeps invalid k s p h = h
  parsed-keeps panic k s p h = tt

  deliver_value-keeps :
      (v : Option Value) (value : Bytes) (s : State e)
      → Kept s
      → Ensures e Kept (deliver_value e v value s)
  unfolding deliver_value
  deliver_value-keeps none value s h = tt
  deliver_value-keeps (some (notarized view)) value s h =
      parsed-keeps _ (accept_notarized e view) s (λ n. accept_notarized-keeps view n s h) h
  deliver_value-keeps (some (finalized height)) value s h =
      parsed-keeps _ (accept_finalized e height) s (λ g. accept_finalized-keeps height g s h) h
  deliver_value-keeps (some (digest d)) value s h =
      parsed-keeps _ (accept_block e d) s (λ block. accept_block-keeps d block s h) h

  produce_value-keeps :
      (buffer : Buffer e) (v : Option Value) (s : State e)
      → Kept s
      → Ensures e Kept (produce_value e buffer v s)
  unfolding produce_value
  produce_value-keeps buffer none s h = tt
  produce_value-keeps buffer (some v) s h = h

  on_handler-keeps :
      (buffer : Buffer e) (m : HandlerMessage) (s : State e)
      → Kept s
      → Ensures e Kept (on_handler e buffer m s)
  unfolding on_handler on_deliver on_produce
  on_handler-keeps buffer (deliver key value) s h = deliver_value-keeps (to_value key) value s h
  on_handler-keeps buffer (produce key) s h = produce_value-keeps buffer (to_value key) s h

  on_input-keeps :
      (buffer : Buffer e) (input : Input e) (s : State e)
      → Kept s
      → Ensures e Kept (on_input e buffer input s)
  unfolding on_input
  on_input-keeps buffer (mailbox m) s h = Persistence.on_message-keeps e P Q stable buffer m s h
  on_input-keeps buffer (orchestrator o) s h = on_orchestration-keeps o s h
  on_input-keeps buffer (handler m) s h = on_handler-keeps buffer m s h

  pub turn-keeps :
      (buffer : Buffer e) (input : Input e) (s : State e)
      → Kept s
      → Ensures e Kept (turn e buffer input s)
  unfolding turn cancel_useless
  turn-keeps buffer input s h =
      Ensures-map e Kept (cancel_useless e s).1 (on_input e buffer input (cancel_useless e s).0) (
        on_input-keeps buffer input (cancel_useless e s).0
          (record { block_at = h.block_at; finalization_at = h.finalization_at }))

  run-keeps :
      (inputs : List (Buffer e × Input e)) (s : State e) → Kept s → Ensures e Kept (run e inputs s)
  unfolding run
  run-keeps [] s h = h
  run-keeps ((buffer, input) ∷ rest) s h = elim (Option-cases (turn e buffer input s)) [
    | inl panicked ↦ rw panicked tt
    | inr ((s', effects), ok) ↦ rw ok (
        Ensures-map e Kept effects (run e rest s') (
          run-keeps rest s'
            (Ensures-some e Kept (turn e buffer input s) ok (turn-keeps buffer input s h))))
  ]

module _ (e : Environment) (laws : EnvironmentLaws e) where
  -- A turn that does not panic keeps every block of the archive under its height.
  pub turn-keeps_block :
      (i : ℕ) (b : Block e.prim) (buffer : Buffer e) (input : Input e) (s : State e) {s' : State e}
      {effects : List (Effect e)}
      → turn e buffer input s ≡ some (s', effects)
      → e.blocks.get_index i s.blocks ≡ some b
      → e.blocks.get_index i s'.blocks ≡ some b
  turn-keeps_block i b buffer input s ok h =
      let P = λ (bs : e.blocks.Store). e.blocks.get_index i bs ≡ some b in
      let Q = λ (fs : e.finalized.Store). Unit {0} in
      (Ensures-some e (Keeps e P Q) (turn e buffer input s) ok (
        turn-keeps e P Q
          (record {
            blocks_persist = λ height d block bs bs' put.
                laws.blocks_immutable.put-keeps height d block bs bs' i b put;
            finalized_persist = λ height d g fs fs' put q. q;
          })
          buffer input s (record { block_at = h; finalization_at = tt }))).block_at

module _ (e : Environment) (laws : EnvironmentLaws e) (i : ℕ) (b : Block e.prim) (j : ℕ)
    (f : e.Finalization) where
  -- The two archives by height are immutable: a `put` keeps the item of every index. Then over any
  -- messages the loop panics, or the block that stood at a height and the finalization that stood
  -- at a height still stand there: no later message replaces or removes them, a second block for
  -- the height among them.
  pub run-keeps_finalized :
      (inputs : List (Buffer e × Input e)) (s : State e)
      → Has e i b j f s
      → Ensures e (Has e i b j f) (run e inputs s)
  run-keeps_finalized inputs s h =
      run-keeps e (λ bs. e.blocks.get_index i bs ≡ some b)
        (λ fs. e.finalized.get_index j fs ≡ some f)
        (record {
          blocks_persist = λ height d block bs bs' ok.
              laws.blocks_immutable.put-keeps height d block bs bs' i b ok;
          finalized_persist =
              λ height d g fs fs' ok. laws.finalized_immutable.put-keeps height d g fs fs' j f ok;
        })
        inputs s h
