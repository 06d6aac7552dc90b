-- ===== src/Syncer/Agreement.antt =====
-- What the consensus of the network promises to the syncer (syncer/src/actor.rs), and what follows for
-- the blocks that it stores under their heights, from which the finalizer takes what it commits.
mod Consensus
mod Orchestrate
mod Resolve
pub mod Loop
use sahya_net.Prelude.{ℕ, ◌≡◌, true, Option, none, some, List, [], ◌∷◌, ◌++◌, All}
use mathlib.Core.List.{Memᴰ}
use sahya_net.Types.Digest.{Digest}
use sahya_net.Types.Block.{Block}
use sahya_net.Types.Block.Codec.{rehash}
use sahya_net.Types.Certified.{Certified}
use sahya_net.Syncer.Environment.{Environment}
use sahya_net.Syncer.Archive.{Stores}
use sahya_net.Syncer.Key.{MultiIndex, notarized, finalized, digest, new, to_value}
use sahya_net.Syncer.Key.RoundTrip.{to_value-digest}
use mathlib.Core.Path.{subst}
use sahya_net.Syncer.Messages.{
  Message, get, broadcast, store_verified, finalize, notarize, deliver, produce,
}
use sahya_net.Syncer.State.{
  State, Effect, fetch, cancel, buffer_broadcast, subscribe_prepared, notify_finalizer,
  respond_block, respond_found, respond_bool, respond_bytes, Turn, Buffer, next, ◌>>=◌,
}
use sahya_net.Syncer.Actor.{Input, mailbox, orchestrator, handler}
use sahya_net.Syncer.Coherence.{IsBuffer}

-- The digest is that of the fields.
abbrev pub IsGenuine : (e : Environment) → Block e.prim → Type 0
IsGenuine e b = rehash e.prim b ≡ b

-- The digests of the finalized blocks and their ancestors, all of them, whichever node knows them.
-- What is finalized is final, the parent of a final block is final, and no two final blocks have
-- one height: this is the agreement of the consensus, for blocks with the digest of their fields.
pub record Network (e : Environment) : Type 1 where
  pub Final : Digest → Type 0
  pub certified :
      (f : e.Finalization)
      → e.finalization.verify e.namespace e.identity f ≡ true
      → Final (e.finalization.payload f)
  pub ancestors : (b : Block e.prim) → IsGenuine e b → Final b.digest → Final b.parent
  pub one_at_height :
      (b c : Block e.prim)
      → IsGenuine e b
      → IsGenuine e c
      → Final b.digest
      → Final c.digest
      → b.height ≡ c.height
      → b.digest ≡ c.digest

module _ {e : Environment} (net : Network e) where
  -- The stored blocks are genuine, and those under their heights are final.
  pub record OnlyFinal (s : State e) : Type 0 where
    pub verified : Stores e.verified (λ i k b. IsGenuine e b) s.verified
    pub notarized : Stores e.notarized (λ i k n. IsGenuine e n.block) s.notarized
    pub blocks : Stores e.blocks (λ i k b. IsGenuine e b × net.Final k) s.blocks

  -- A block is fetched by its digest only if it is final.
  abbrev pub IsFinalKey : MultiIndex → Type 0
  IsFinalKey key = (d : Digest) → to_value key ≡ some (digest d) → net.Final d

  pub digest-IsFinalKey : (d : Digest) → net.Final d → IsFinalKey (new (digest d))
  digest-IsFinalKey d final c h = subst net.Final (to_value-digest (digest d) c h) final

  pub notarized-IsFinalKey : (view : ℕ) → IsFinalKey (new (notarized view))
  notarized-IsFinalKey view c h = absurd (to_value-digest (notarized view) c h)

  pub finalized-IsFinalKey : (height : ℕ) → IsFinalKey (new (finalized height))
  finalized-IsFinalKey height c h = absurd (to_value-digest (finalized height) c h)

  abbrev pub FetchesFinal : Effect e → Type 0
  FetchesFinal (fetch key) = IsFinalKey key
  FetchesFinal (cancel key) = Unit
  FetchesFinal (buffer_broadcast b) = Unit
  FetchesFinal (subscribe_prepared d) = Unit
  FetchesFinal notify_finalizer = Unit
  FetchesFinal (respond_block b) = Unit
  FetchesFinal (respond_found o) = Unit
  FetchesFinal (respond_bool b) = Unit
  FetchesFinal (respond_bytes bs) = Unit

  abbrev pub Ends : Turn e → Type 0
  Ends none = Unit
  Ends (some (s, effects)) = OnlyFinal s × All FetchesFinal effects

-- The keys that effects fetch.
unfoldable pub fetched : {e : Environment} → List (Effect e) → List MultiIndex
fetched [] = []
fetched (fetch key ∷ rest) = key ∷ fetched rest
fetched (effect ∷ rest) = fetched rest

-- What may reach the syncer: the consensus engine reports finalizations that verify, the application
-- stores blocks that were decoded or built, and the resolver delivers what was fetched, with any
-- bytes.
abbrev pub Arrives : {e : Environment} → List MultiIndex → Input e → Type 0
Arrives keys (mailbox (get view d)) = Unit
Arrives keys (mailbox (broadcast b)) = Unit
Arrives {e} keys (mailbox (store_verified view b)) = IsGenuine e b
Arrives {e} keys (mailbox (finalize f)) = e.finalization.verify e.namespace e.identity f ≡ true
Arrives keys (mailbox (notarize n)) = Unit
Arrives keys (orchestrator o) = Unit
Arrives keys (handler (deliver key value)) = Memᴰ key keys
Arrives keys (handler (produce key)) = Unit

-- The buffer has blocks under their digests, with the digests of their fields.
pub record IsSound (e : Environment) (buffer : Buffer e) : Type 0 where
  pub is_buffer : IsBuffer e buffer
  pub genuine : (d : Digest) (b : Block e.prim) → next (buffer d) ≡ some b → IsGenuine e b
