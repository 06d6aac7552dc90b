-- ===== src/Application/Actor.antt =====
-- application/src/actor.rs, `Actor::run`, with application/src/ingress.rs: the messages of the
-- consensus engine and what they make the application do.
pub mod Votes
mod Tests
use sahya_net.Prelude.{ℕ, Bool, true, false, Option, none, some, List, [], ◌∷◌, ◌++◌, if◌then◌else◌}
use sahya_net.Types.Digest.{Digest, digest_eq}
use sahya_net.Types.Primitives.{Primitives}
use sahya_net.Types.Block.{Block, genesis}
use sahya_net.Application.Verify.{handle_verify}
use sahya_net.Application.Proposal
use sahya_net.Application.Proposal.{Proposed, built, unable, panicked, parent_of, handle_proposal}

-- `ingress::Message`; a parent is its view and its digest.
pub data Message : Type 0 where
  genesis_request : Message
  propose : ℕ → ℕ × Digest → Message
  broadcast : Digest → Message
  verify : ℕ → ℕ × Digest → Digest → Message

-- `Automaton` and `Relay` of `Mailbox`: the context of a call becomes the fields of a message.
pub record Context : Type 0 where
  pub view : ℕ
  pub parent : ℕ × Digest

pub mailbox_genesis : Message
mailbox_genesis = genesis_request

pub mailbox_propose : Context → Message
mailbox_propose c = propose c.view c.parent

pub mailbox_verify : Context → Digest → Message
mailbox_verify c payload = verify c.view c.parent payload

pub mailbox_broadcast : Digest → Message
mailbox_broadcast digest = broadcast digest

pub record State (x : Primitives) : Type 0 where
  pub genesis_hash : Digest
  pub built_block : Option (Block x)

-- The answers to one message. `aborted`: the consensus engine has dropped the receiver first.
-- `verified_block` and `verified_parent` are what the syncer answers, none if its channel is closed.
pub record Answers (x : Primitives) : Type 0 where
  pub proposal : Proposal.Answers x
  pub verified_parent : Option (Block x)
  pub verified_block : Option (Block x)
  pub aborted : Bool

pub data Effect (x : Primitives) : Type 0 where
  respond_digest : Digest → Effect x
  respond_vote : Bool → Effect x
  -- calls of the syncer's mailbox
  get : Option ℕ → Digest → Effect x
  syncer_broadcast : Block x → Effect x
  store_verified : ℕ → Block x → Effect x

-- The state after a message and its effects in order; `none` is a panic.
abbrev pub Turn : Primitives → Type 0
Turn x = Option (State x × List (Effect x))

module _ (x : Primitives) where
  -- The parent is asked for unless it is the genesis block.
  unfoldable pub request_parent : Digest → ℕ × Digest → List (Effect x)
  request_parent genesis_hash (view, digest) =
      if digest_eq digest genesis_hash then [] else get (some view) digest ∷ []

  on_built : State x → List (Effect x) → Proposed x → Turn x
  on_built s asked (built block) =
      some (record s { built_block = some block }, asked ++ respond_digest block.digest ∷ [])
  on_built s asked unable = some (s, asked)
  on_built s asked panicked = none

  -- `Message::Propose`; an abort leaves the state as it is.
  unfoldable pub on_propose : ℕ × Digest → Answers x → State x → Turn x
  unfolding on_built
  on_propose parent a s =
      let asked = request_parent s.genesis_hash parent in
      if a.aborted
      then some (s, asked)
      else on_built s asked (handle_proposal x s.genesis_hash parent.1 a.proposal)

  broadcast_built : State x → Option (Block x) → Turn x
  broadcast_built s none = some (s, [])
  broadcast_built s (some block) = some (s, syncer_broadcast block ∷ [])

  -- `Message::Broadcast`: another payload than that of the built block is only logged.
  unfoldable pub on_broadcast : Digest → State x → Turn x
  unfolding broadcast_built
  on_broadcast payload s = broadcast_built s s.built_block

  -- The task that votes: both blocks must have come, and a block that extends its parent is stored.
  vote : ℕ → Option (Block x) → Option (Block x) → State x → List (Effect x) → Turn x
  vote view none block s asked = none
  vote view (some parent) none s asked = none
  vote view (some parent) (some block) s asked =
      if handle_verify x block parent
      then some (s, asked ++ store_verified view block ∷ respond_vote true ∷ [])
      else some (s, asked ++ respond_vote false ∷ [])

  -- `Message::Verify`
  unfoldable pub on_verify : ℕ → ℕ × Digest → Digest → Answers x → State x → Turn x
  unfolding vote
  on_verify view parent payload a s =
      let asked = request_parent s.genesis_hash parent ++ get none payload ∷ [] in
      if a.aborted
      then some (s, asked)
      else vote view (parent_of x s.genesis_hash parent.1 a.verified_parent) a.verified_block s
          asked

  unfoldable pub on_message : Message → Answers x → State x → Turn x
  on_message genesis_request a s = some (s, respond_digest s.genesis_hash ∷ [])
  on_message (propose view parent) a s = on_propose parent a s
  on_message (broadcast payload) a s = on_broadcast payload s
  on_message (verify view parent payload) a s = on_verify view parent payload a s

  unfoldable pub run : List (Message × Answers x) → State x → Turn x
  run [] s = some (s, [])
  run ((m, a) ∷ rest) s = elim (on_message m a s) [
    | none ↦ none
    | some (s', effects) ↦ elim (run rest s') [
      | none ↦ none
      | some (s'', later) ↦ some (s'', effects ++ later)
    ]
  ]
