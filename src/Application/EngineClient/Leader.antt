-- ===== src/Application/EngineClient/Leader.antt =====
-- A leader with its execution client: `handle_proposal` with the calls of the client that it makes.
use sahya_net.Prelude.{
  ℕ, ◌+◌, ◌%◌, ◌^◌, ◌<◌, ◌≡◌, refl, ap, ◌∙◌, inl, inr, Bool, true, Option, none, some, List, All,
  length, if◌then◌else◌, Bool-cases,
}
use sahya_net.Types.Digest.{Digest}
use sahya_net.Types.Primitives.{Primitives}
use sahya_net.Types.Block.{Block, compute_digest, eth_block_hash, eth_parent_hash}
use sahya_net.Application.Finalizer.{Finalizer, Forkchoice}
use sahya_net.Application.Verify.{handle_verify, handle_verify_iff}
use sahya_net.Application.Proposal.{
  Envelope, Proposed, built, unable, panicked, parent_of, next_timestamp,
}
use sahya_net.Application.Proposal.Accepted.{next_timestamp_later}
use sahya_net.Application.EngineClient.{Provider, ProviderLaws, start_building_block, get_payload}
use sahya_net.Application.EngineClient.Turns.{Inputs, run_with}
use sahya_net.Application.EngineClient.Head.{
  IsChain, IsFromChain, IsBeside, run_with-Moves, Moves-shared,
}

-- What the proposal is answered by others than the execution client, and what else happens to the
-- client while the proposal sleeps.
pub record Leading {x : Primitives} (p : Provider x) : Type 0 where
  pub parent_block : Option (Block x)
  pub height_reached : Bool
  pub current_millis : ℕ
  pub forkchoice : Forkchoice
  pub meanwhile : p.Client → p.Client

module _ {x : Primitives} (p : Provider x) where
  -- `Block::compute_digest` of what was got; a failed call panics.
  block_of : Block x → ℕ → Option (p.Client × Envelope x) → Proposed x
  block_of parent current none = panicked
  block_of parent current (some (c, e)) = built (
      compute_digest x parent.digest ((parent.height + 1) % 2 ^ 64) current e.execution_payload
        e.execution_requests e.block_value)

  payload_on : (p.Client → p.Client) → Block x → ℕ → Option (p.Client × Option ℕ) → Proposed x
  unfolding block_of
  payload_on meanwhile parent current none = panicked
  payload_on meanwhile parent current (some (c, none)) = unable
  payload_on meanwhile parent current (some (c, some id)) =
      block_of parent current (get_payload p id (meanwhile c))

  propose_on : Leading p → Option (Block x) → p.Client → Proposed x
  unfolding payload_on
  propose_on a none c = panicked
  propose_on a (some parent) c =
      if a.height_reached
      then (let current = next_timestamp x a.current_millis parent in
          payload_on a.meanwhile parent current (start_building_block p a.forkchoice current c))
      else panicked

  unfoldable pub propose_with : Digest → Digest → Leading p → p.Client → Proposed x
  unfolding propose_on
  propose_with genesis_hash parent a c =
      propose_on a (parent_of x genesis_hash parent a.parent_block) c

  module _ (laws : ProviderLaws p) where
    -- The block that was built, and the payload that was got for it.
    record Got (a : Leading p) (parent b : Block x) (current : ℕ) : Type 0 where
      pub envelope : Envelope x
      pub is_block :
          compute_digest x parent.digest
            ((parent.height + 1) % 2 ^ 64)
            current
            envelope.execution_payload
            envelope.execution_requests
            envelope.block_value
          ≡ b
      pub on_head : x.parent_hash envelope.execution_payload ≡ a.forkchoice.head_block_hash

    -- A payload that is being built stays so.
    abbrev pub KeepsBuilding : (p.Client → p.Client) → Type 0
    KeepsBuilding f =
        (c : p.Client) (id : ℕ) (d : Digest) → laws.IsBuilding c id d → laws.IsBuilding (f c) id d

    block_of-Got :
        (a : Leading p) (parent b : Block x) (current id : ℕ) (c : p.Client)
        (o : Option (p.Client × Envelope x))
        → laws.IsBuilding c id a.forkchoice.head_block_hash
        → get_payload p id c ≡ o
        → block_of parent current o ≡ built b
        → Got a parent b current
    unfolding block_of get_payload
    block_of-Got a parent b current id c none building got h = cc
    block_of-Got a parent b current id c (some (c', e)) building got h = record {
      envelope = e;
      is_block = cc;
      on_head = laws.gets id a.forkchoice.head_block_hash c c' e building got;
    }

    payload_on-Got :
        (a : Leading p) (parent b : Block x) (current : ℕ) (c : p.Client)
        (o : Option (p.Client × Option ℕ))
        → KeepsBuilding a.meanwhile
        → start_building_block p a.forkchoice current c ≡ o
        → payload_on a.meanwhile parent current o ≡ built b
        → Got a parent b current
    unfolding payload_on KeepsBuilding start_building_block
    payload_on-Got a parent b current c none keeps began h = cc
    payload_on-Got a parent b current c (some (c', none)) keeps began h = cc
    payload_on-Got a parent b current c (some (c', some id)) keeps began h =
        block_of-Got a parent b current id (a.meanwhile c') _
          (keeps c' id a.forkchoice.head_block_hash (laws.begins a.forkchoice _ c c' id began)) refl
          h

    propose_on-Got :
        (a : Leading p) (parent b : Block x) (c : p.Client)
        → KeepsBuilding a.meanwhile
        → propose_on a (some parent) c ≡ built b
        → Got a parent b (next_timestamp x a.current_millis parent)
    unfolding propose_on
    propose_on-Got a parent b c keeps h = elim (Bool-cases a.height_reached) [
      | inr gone ↦ let stopped : panicked ≡ built b = rw gone at h in absurd cc
      | inl reached ↦
          payload_on-Got a parent b (next_timestamp x a.current_millis parent) c _ keeps refl
            (rw reached at h)
    ]

    Got-verifies :
        (a : Leading p) (parent b : Block x) (current : ℕ)
        → Got a parent b current
        → a.forkchoice.head_block_hash ≡ eth_block_hash x parent
        → parent.timestamp < current
        → handle_verify x b parent ≡ true
    unfolding compute_digest eth_parent_hash
    Got-verifies a parent b current got head later = rw (← got.is_block) (
        (handle_verify_iff x _ parent).1 (record {
          execution = got.on_head ∙ head;
          link = refl;
          next_height = refl;
          later = later;
        }))

    -- Suppose that the execution client obeys the laws of the Engine API and is reached at every call,
    -- that the syncer answers the finalizer with blocks of one chain, whose payloads are built on each
    -- other, that the head of the client is the block at the finalizer's height or the next one, and
    -- that the heights fit a u64. Let a run of the finalizer commit at least one block, and let the
    -- leader, with the shared forkchoice, be asked for a proposal on the last one. What it builds then
    -- with the same client is accepted by `handle_verify` against that block, if the payload stays in
    -- the making while the leader sleeps and a later timestamp fits a u64.
    pub leader_accepted :
        (chain : ℕ → Block x) (inputs : List (Inputs x)) (s s' : Finalizer) (c c' : p.Client)
        (genesis_hash digest : Digest) (a : Leading p) (b : Block x)
        → IsChain x chain
        → All (IsFromChain p laws chain) inputs
        → s.last_indexed + length inputs < 2 ^ 64
        → IsBeside p laws chain s.last_indexed c
        → run_with p inputs s c ≡ some (s', c')
        → s.last_indexed < s'.last_indexed
        → a.forkchoice ≡ s'.forkchoice
        → KeepsBuilding a.meanwhile
        → parent_of x genesis_hash digest a.parent_block ≡ some (chain s'.last_indexed)
        → (chain s'.last_indexed).timestamp + 1 < 2 ^ 64
        → propose_with genesis_hash digest a c' ≡ built b
        → handle_verify x b (chain s'.last_indexed) ≡ true
    unfolding propose_with
    leader_accepted chain inputs s s' c c' genesis_hash digest a b chained chains range beside ran
          committed shared keeps found room proposed =
        let (s1, c1, ran1, m) =
          run_with-Moves p laws chain chained inputs s c chains range beside in
        let same : s1 ≡ s' = cc (ran, ran1) in
        let parent = chain s'.last_indexed in
        Got-verifies a parent b _ (propose_on-Got a parent b c' keeps (rw found at proposed))
          (ap (λ (f : Forkchoice). f.head_block_hash) shared
            ∙ ap (λ (f : Forkchoice). f.head_block_hash)
                (Moves-shared p laws chain s s' c c1 (rw same at m) committed))
          (next_timestamp_later x a.current_millis parent room)
