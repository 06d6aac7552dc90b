-- ===== src/Pipeline.antt =====
-- The finalizer (application/src/finalizer.rs) fed by the syncer (syncer/src/actor.rs), over the
-- `Orchestrator` of syncer/src/ingress.rs. The finalizer waits for each answer, so its turn is cut at
-- its requests: between two of them the syncer takes messages of the consensus engine and of peers in
-- any order. The channel of the orchestrator is first-in first-out, and the finalizer's next request
-- stands behind its report of a processed block.
pub mod Consistent
pub mod Safety
pub mod Progress
pub mod Repair
pub mod Restart
pub mod Agreed
mod Tests
use sahya_net.Prelude.{ℕ, ◌+◌, ◌%◌, ◌^◌, ◌≡◌, Bool, true, false, Option, none, some, List, [], ◌∷◌}
use sahya_net.Types.Digest.{Digest}
use sahya_net.Types.Block.{Block}
use sahya_net.Syncer.Environment.{Environment}
use sahya_net.Syncer.Messages.{Message, Orchestration, get_next, processed, repair, HandlerMessage}
use sahya_net.Syncer.State.{State, Effect, respond_found, respond_bool, Buffer}
use sahya_net.Syncer.Actor.{mailbox, orchestrator, handler, turn}
use sahya_net.Syncer.Coherence.{IsBuffer}
use sahya_net.Application.Finalizer
use sahya_net.Application.Finalizer.{Finalizer, Wake, commit, wait}

-- `Orchestrator::get`, `processed` and `repair`: the message that each sends.
pub orchestrator_get : ℕ → Orchestration
orchestrator_get next = get_next next

pub orchestrator_processed : ℕ → Digest → Orchestration
orchestrator_processed next digest = processed next digest

pub orchestrator_repair : ℕ → Orchestration
orchestrator_repair next = repair next

-- Where the finalizer stands in its loop.
pub data Phase (e : Environment) : Type 0 where
  looking : Phase e
  checking : Block e.prim → Phase e
  persisting : Block e.prim → Phase e
  reporting : ℕ → Digest → Phase e
  repairing : Phase e
  waiting : Phase e

-- Two fields are no state of the program. `calls` records the blocks that the execution client was told
-- of by `commit_hash`, and `committed` those whose height was stored behind that, newest first.
pub record Pipeline (e : Environment) : Type 0 where
  pub syncer : State e
  pub finalizer : Finalizer
  pub phase : Phase e
  pub calls : List (Block e.prim)
  pub committed : List (Block e.prim)

module _ (e : Environment) where
  -- The answer among the effects of a turn of the syncer.
  unfoldable pub found_answer : List (Effect e) → Option (Option (Block e.prim))
  found_answer [] = none
  found_answer (respond_found o ∷ rest) = some o
  found_answer (effect ∷ rest) = found_answer rest

  unfoldable pub repair_answer : List (Effect e) → Option Bool
  repair_answer [] = none
  repair_answer (respond_bool b ∷ rest) = some b
  repair_answer (effect ∷ rest) = repair_answer rest

  abbrev pub next_height : Pipeline e → ℕ
  next_height p = (p.finalizer.last_indexed + 1) % 2 ^ 64

  -- `if let Some(block) = orchestrator.get(next).await`
  abbrev pub after_get : Option (Block e.prim) → Phase e
  after_get none = repairing
  after_get (some b) = checking b

  -- `if orchestrator.repair(next).await { continue; }`
  abbrev pub after_repair : Bool → Phase e
  after_repair true = looking
  after_repair false = waiting

-- A step of the syncer on a message from outside, or of the finalizer.
pub data Step (e : Environment) (p : Pipeline e) : Pipeline e → Type 0 where
  consensus :
      (buffer : Buffer e) (m : Message e) {s : State e} {effects : List (Effect e)}
      → IsBuffer e buffer
      → turn e buffer (mailbox m) p.syncer ≡ some (s, effects)
      → Step e p (record p { syncer = s })
  network :
      (buffer : Buffer e) (m : HandlerMessage) {s : State e} {effects : List (Effect e)}
      → IsBuffer e buffer
      → turn e buffer (handler m) p.syncer ≡ some (s, effects)
      → Step e p (record p { syncer = s })
  look :
      (buffer : Buffer e) (o : Option (Block e.prim)) {s : State e} {effects : List (Effect e)}
      → IsBuffer e buffer
      → p.phase ≡ looking
      → turn e buffer (orchestrator (orchestrator_get (next_height e p))) p.syncer
        ≡ some (s, effects)
      → found_answer e effects ≡ some o
      → Step e p (record p { syncer = s; phase = after_get e o })
  -- the execution client calls the payload valid, and is told of the block
  accept :
      (b : Block e.prim)
      → p.phase ≡ checking b
      → Step e p (record p { phase = persisting b; calls = b ∷ p.calls })
  -- the height is stored
  persist :
      (b : Block e.prim)
      → p.phase ≡ persisting b
      → Step e p (record p {
        finalizer = (commit e.prim (next_height e p) b p.finalizer).0;
        phase = reporting (next_height e p) b.digest;
        committed = b ∷ p.committed;
      })
  -- or not
  reject : (b : Block e.prim) → p.phase ≡ checking b → Step e p (record p { phase = repairing })
  report :
      (buffer : Buffer e) (height : ℕ) (d : Digest) {s : State e} {effects : List (Effect e)}
      → IsBuffer e buffer
      → p.phase ≡ reporting height d
      → turn e buffer (orchestrator (orchestrator_processed height d)) p.syncer ≡ some (s, effects)
      → Step e p (record p { syncer = s; phase = looking })
  mend :
      (buffer : Buffer e) (b : Bool) {s : State e} {effects : List (Effect e)}
      → IsBuffer e buffer
      → p.phase ≡ repairing
      → turn e buffer (orchestrator (orchestrator_repair (next_height e p))) p.syncer
        ≡ some (s, effects)
      → repair_answer e effects ≡ some b
      → Step e p (record p { syncer = s; phase = after_repair e b })
  wake :
      (w : Wake)
      → p.phase ≡ waiting
      → Step e p (record p { finalizer = (wait e.prim w p.finalizer).0; phase = looking })

pub data Reach (e : Environment) (p : Pipeline e) : Pipeline e → Type 0 where
  here : Reach e p p
  later : {q r : Pipeline e} → Reach e p q → Step e q r → Reach e p r
