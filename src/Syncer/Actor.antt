-- ===== src/Syncer/Actor.antt =====
-- syncer/src/actor.rs, `Actor::run`: one turn of the loop, and the loop over the messages that
-- `select!` chooses.
use sahya_net.Prelude.{ℕ, some, List, [], ◌∷◌, ◌++◌, not, ltb, retain}
use sahya_net.Syncer.Environment.{Environment}
use sahya_net.Syncer.Key.{notarized, new}
use sahya_net.Syncer.Messages.{Message, Orchestration, HandlerMessage}
use sahya_net.Syncer.State.{State, Effect, cancel, Turn, Buffer, ◌>>=◌}
use sahya_net.Syncer.Consensus.{on_message}
use sahya_net.Syncer.Orchestrate.{on_orchestration}
use sahya_net.Syncer.Resolve.{on_handler}

-- The message that a turn takes from one of the three channels.
pub data Input (e : Environment) : Type 0 where
  mailbox : Message e → Input e
  orchestrator : Orchestration → Input e
  handler : HandlerMessage → Input e

abbrev pub cancel_views : (e : Environment) → List ℕ → List (Effect e)
cancel_views e [] = []
cancel_views e (view ∷ rest) = cancel (new (notarized view)) ∷ cancel_views e rest

module _ (e : Environment) where
  -- "Cancel useless requests": outstanding views below the latest one.
  unfoldable pub cancel_useless : State e → State e × List (Effect e)
  cancel_useless s = (
    record s {
      outstanding_notarize = retain (λ view. not (ltb view s.latest_view)) s.outstanding_notarize;
    },
    cancel_views e (retain (λ view. ltb view s.latest_view) s.outstanding_notarize),
  )

  unfoldable pub on_input : Buffer e → Input e → State e → Turn e
  on_input buffer (mailbox m) s = on_message e buffer m s
  on_input buffer (orchestrator o) s = on_orchestration e o s
  on_input buffer (handler h) s = on_handler e buffer h s

  -- One turn of `loop`.
  unfoldable pub turn : Buffer e → Input e → State e → Turn e
  turn buffer input s = do
    let (s', cancelled) = cancel_useless s
    (s'', effects) ← on_input buffer input s'
    some (s'', cancelled ++ effects)

  -- The loop over the messages that come, each with the contents of the buffer at its time.
  unfoldable pub run : List (Buffer e × Input e) → State e → Turn e
  run [] s = some (s, [])
  run ((buffer, input) ∷ rest) s = do
    (s', effects) ← turn buffer input s
    (s'', later) ← run rest s'
    some (s'', effects ++ later)

  -- The state in which `run` starts, over the archives that `Actor::new` has opened.
  unfoldable pub init :
      e.verified.Store → e.notarized.Store → e.finalized.Store → e.blocks.Store → State e
  init verified notarizations finalizations blocks = record {
    verified = verified;
    notarized = notarizations;
    finalized = finalizations;
    blocks = blocks;
    latest_view = 0;
    requested_blocks = [];
    last_view_processed = 0;
    outstanding_notarize = [];
  }
