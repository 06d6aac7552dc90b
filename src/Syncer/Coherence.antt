-- ===== src/Syncer/Coherence.antt =====
-- What holds of the four archives of the syncer between two turns: an item stands under its own
-- digest, and under its own view or height.
mod Consensus
mod Orchestrate
mod Resolve
pub mod Loop
mod Tests
use sahya_net.Prelude.{ℕ, ◌≡◌, Option, none, some, List, ◌∷◌, ◌++◌}
use sahya_net.Types.Digest.{Digest}
use sahya_net.Types.Block.{Block}
use sahya_net.Types.Certified.{Certificate, Certified}
use sahya_net.Syncer.Environment.{Environment}
use sahya_net.Syncer.Archive.{Archive, Stores}
use sahya_net.Syncer.State.{State, Effect, Turn, Buffer, next, ◌>>=◌}

module _ (e : Environment) where
  abbrev pub IsVerified : ℕ → Digest → Block e.prim → Type 0
  IsVerified view k b = b.digest ≡ k

  abbrev pub IsNotarized : ℕ → Digest → Certified e.prim e.Notarization → Type 0
  IsNotarized view k n =
      (e.notarization.view n.proof ≡ view)
      × (e.notarization.payload n.proof ≡ k)
      × (n.block.digest ≡ k)

  -- Some block of that height has the digest that is finalized.
  abbrev pub IsFinalized : ℕ → Digest → e.Finalization → Type 0
  IsFinalized height k f =
      (e.finalization.payload f ≡ k) × ((b : Block e.prim) × (b.height ≡ height) × (b.digest ≡ k))

  abbrev pub IsBlockAt : ℕ → Digest → Block e.prim → Type 0
  IsBlockAt height k b = (b.height ≡ height) × (b.digest ≡ k)

  pub record IsCoherent (s : State e) : Type 0 where
    pub verified : Stores e.verified IsVerified s.verified
    pub notarized : Stores e.notarized IsNotarized s.notarized
    pub finalized : Stores e.finalized IsFinalized s.finalized
    pub blocks : Stores e.blocks IsBlockAt s.blocks

  -- The buffer returns what it is asked for.
  abbrev pub IsBuffer : Buffer e → Type 0
  IsBuffer buffer = (d : Digest) (b : Block e.prim) → next (buffer d) ≡ some b → b.digest ≡ d

  -- The turn panics, or ends in a state that satisfies `P`.
  abbrev pub Ensures : (State e → Type 0) → Turn e → Type 0
  Ensures P none = Unit
  Ensures P (some (s, effects)) = P s

  pub Ensures-map :
      (P : State e → Type 0) (before : List (Effect e)) (t : Turn e)
      → Ensures P t
      → Ensures P (t >>= λ r. some (r.0, before ++ r.1))
  Ensures-map P before none h = tt
  Ensures-map P before (some (s, effects)) h = h

  pub Ensures-some :
      (P : State e → Type 0) (t : Turn e) {s : State e} {effects : List (Effect e)}
      → t ≡ some (s, effects)
      → Ensures P t
      → P s
  Ensures-some P t h p = rw h at p
