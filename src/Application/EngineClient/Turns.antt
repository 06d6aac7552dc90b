-- ===== src/Application/EngineClient/Turns.antt =====
-- The finalizer with the execution client that it drives: what the client answers is no longer given,
-- and the calls of a turn change its state.
use sahya_net.Prelude.{ℕ, ◌+◌, ◌%◌, ◌^◌, Bool, false, Option, none, some, List, [], ◌∷◌}
use sahya_net.Types.Primitives.{Primitives}
use sahya_net.Types.Block.{Block, ◌>>=◌}
use sahya_net.Application.Finalizer.{Finalizer, Wake, Answers, Effect, commit_hash, turn}
use sahya_net.Application.EngineClient.{Provider, check_payload}

-- What the syncer and the channels answer to one turn: `orchestrator.get` at any height, `repair` and
-- the message that `select!` takes.
pub record Inputs (x : Primitives) : Type 0 where
  pub get : ℕ → Option (Block x)
  pub repaired : Bool
  pub wake : Wake

module _ {x : Primitives} (p : Provider x) where
  -- `if let Some(block) = ..` and the status of its payload
  unfoldable pub checked : Option (Block x) → p.Client → Option (p.Client × Bool)
  checked none c = some (c, false)
  checked (some block) c = do res ← check_payload p block c; some (res.0, p.is_valid res.1)

  -- The calls of the turn that are left when the payload is checked.
  unfoldable pub perform : List (Effect x) → p.Client → Option p.Client
  perform [] c = some c
  perform (commit_hash f ∷ rest) c = do
    c' ← sahya_net.Application.EngineClient.commit_hash p f c
    perform rest c'
  perform (effect ∷ rest) c = perform rest c

  abbrev pub answers_of : Inputs x → ℕ → Bool → Answers x
  answers_of i next valid = record {
    block = i.get next;
    is_valid = valid;
    repaired = i.repaired;
    wake = i.wake;
  }

  -- The state after a turn, once its calls are made.
  unfoldable pub settle : Finalizer × List (Effect x) → p.Client → Option (Finalizer × p.Client)
  settle (s, effects) c = do c' ← perform effects c; some (s, c')

  unfoldable pub turn_with : Inputs x → Finalizer → p.Client → Option (Finalizer × p.Client)
  turn_with i s c =
      let next = (s.last_indexed + 1) % 2 ^ 64 in
      checked (i.get next) c >>= (λ res. settle (turn x (answers_of i next res.1) s) res.0)

  unfoldable pub run_with : List (Inputs x) → Finalizer → p.Client → Option (Finalizer × p.Client)
  run_with [] s c = some (s, c)
  run_with (i ∷ rest) s c = do res ← turn_with i s c; run_with rest res.0 res.1
