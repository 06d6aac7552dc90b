-- ===== src/Syncer/Coherence/Loop.antt =====
-- Every turn of the syncer keeps the archives coherent, and so does the loop.
use sahya_net.Prelude.{inl, inr, List, [], ◌∷◌, All, Option-cases}
use sahya_net.Syncer.Environment.{Environment, EnvironmentLaws}
use sahya_net.Syncer.State.{State, Buffer}
use sahya_net.Syncer.Actor.{
  Input, mailbox, orchestrator, handler, cancel_useless, on_input, turn, run,
}
use sahya_net.Syncer.Coherence.{IsCoherent, IsBuffer, Ensures, Ensures-map, Ensures-some}
use sahya_net.Syncer.Coherence.Consensus.{on_message-IsCoherent}
use sahya_net.Syncer.Coherence.Orchestrate.{on_orchestration-IsCoherent}
use sahya_net.Syncer.Coherence.Resolve.{on_handler-IsCoherent}

module _ (e : Environment) (laws : EnvironmentLaws e) where
  on_input-IsCoherent :
      (buffer : Buffer e) (input : Input e) (s : State e)
      → IsBuffer e buffer
      → IsCoherent e s
      → Ensures e (IsCoherent e) (on_input e buffer input s)
  unfolding on_input
  on_input-IsCoherent buffer (mailbox m) s hb c = on_message-IsCoherent e laws buffer m s hb c
  on_input-IsCoherent buffer (orchestrator o) s hb c = on_orchestration-IsCoherent e laws o s c
  on_input-IsCoherent buffer (handler h) s hb c = on_handler-IsCoherent e laws buffer h s c

  pub cancel_useless-IsCoherent :
      (s : State e) → IsCoherent e s → IsCoherent e (cancel_useless e s).0
  unfolding cancel_useless
  cancel_useless-IsCoherent s c = record {
    verified = c.verified;
    notarized = c.notarized;
    finalized = c.finalized;
    blocks = c.blocks;
  }

  -- A turn of the loop, on any message and with any bytes from peers, panics or ends with coherent
  -- archives, if they were coherent before.
  pub turn-IsCoherent :
      (buffer : Buffer e) (input : Input e) (s : State e)
      → IsBuffer e buffer
      → IsCoherent e s
      → Ensures e (IsCoherent e) (turn e buffer input s)
  unfolding turn
  turn-IsCoherent buffer input s hb c =
      Ensures-map e (IsCoherent e) (cancel_useless e s).1
        (on_input e buffer input (cancel_useless e s).0)
        (on_input-IsCoherent buffer input (cancel_useless e s).0 hb (cancel_useless-IsCoherent s c))

  -- Suppose that the archives are coherent: every item stands under its own digest and under its own
  -- view or height. Then the loop over any messages, with any bytes from peers and each with a buffer
  -- that returns what it is asked for, panics or ends with coherent archives.
  pub run-IsCoherent :
      (inputs : List (Buffer e × Input e)) (s : State e)
      → All (λ i. IsBuffer e i.0) inputs
      → IsCoherent e s
      → Ensures e (IsCoherent e) (run e inputs s)
  unfolding run
  run-IsCoherent [] s hb c = c
  run-IsCoherent ((buffer, input) ∷ rest) s hb c = elim (Option-cases (turn e buffer input s)) [
    | inl panicked ↦ rw panicked tt
    | inr ((s', effects), ok) ↦ rw ok (
        Ensures-map e (IsCoherent e) effects (run e rest s') (
          run-IsCoherent rest s' hb.1 (
            Ensures-some e (IsCoherent e) (turn e buffer input s) ok
              (turn-IsCoherent buffer input s hb.0 c))))
  ]
