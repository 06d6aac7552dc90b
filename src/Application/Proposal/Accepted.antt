-- ===== src/Application/Proposal/Accepted.antt =====
-- Which proposals the other nodes vote for.
use sahya_net.Prelude.{
  ℕ, ◌+◌, ◌%◌, ◌^◌, ◌<◌, ◌≡◌, refl, sym, ◌∙◌, ◌↔◌, inl, inr, true, Option, none, some, Bool-cases,
  arith,
}
use sahya_net.Types.Digest.{Digest}
use sahya_net.Types.Primitives.{Primitives}
use sahya_net.Types.Block.{Block, compute_digest, eth_block_hash, eth_parent_hash}
use sahya_net.Application.Verify.{handle_verify, handle_verify_iff}
use sahya_net.Application.Proposal.{
  Answers, built, panicked, parent_of, next_timestamp, attributes_of, Envelope, block_of, block_on,
  proposal_on, handle_proposal,
}

module _ (x : Primitives) where
  -- The documented behaviour of the Engine API: a payload is built on the head that is set with it.
  abbrev pub BuildsOnHead : Answers x → Type 0
  BuildsOnHead a =
      (timestamp id : ℕ) (e : Envelope x)
      → a.payload_id a.forkchoice (attributes_of timestamp) ≡ some (some id)
      → a.envelope id ≡ some e
      → x.parent_hash e.execution_payload ≡ a.forkchoice.head_block_hash

  pub next_timestamp_later :
      (current : ℕ) (parent : Block x)
      → parent.timestamp + 1 < 2 ^ 64
      → parent.timestamp < next_timestamp x current parent
  unfolding next_timestamp
  next_timestamp_later current parent range = ground arith

  built_injective : (b c : Block x) → built b ≡ built c → b ≡ c
  built_injective b c h = cc

  proposed_ne : (b : Block x) → panicked ≡ built b → ⊥
  proposed_ne b h = cc

  block_of-Extends :
      (head : Digest) (parent b : Block x) (current : ℕ) (o : Option (Envelope x))
      → ((e : Envelope x) → o ≡ some e → x.parent_hash e.execution_payload ≡ head)
      → parent.timestamp < current
      → block_of x parent current o ≡ built b
      → (handle_verify x b parent ≡ true) ↔ (head ≡ eth_block_hash x parent)
  unfolding block_of compute_digest eth_parent_hash
  block_of-Extends head parent b current none on_head later h = cc
  block_of-Extends head parent b current (some e) on_head later h =
      let made =
        compute_digest x parent.digest ((parent.height + 1) % 2 ^ 64) current e.execution_payload
          e.execution_requests e.block_value in
      let same : made ≡ b = built_injective made b h in
      rw (← same) (
        λ votes. sym (on_head e refl) ∙ ((handle_verify_iff x made parent).0 votes).execution,
        λ at. (handle_verify_iff x made parent).1 (record {
          execution = on_head e refl ∙ at;
          link = refl;
          next_height = refl;
          later = later;
        }),
      )

  block_on-Extends :
      (a : Answers x) (parent b : Block x) (current : ℕ) (o : Option (Option ℕ))
      → ((id : ℕ) (e : Envelope x)
          → o ≡ some (some id)
          → a.envelope id ≡ some e
          → x.parent_hash e.execution_payload ≡ a.forkchoice.head_block_hash)
      → parent.timestamp < current
      → block_on x a parent current o ≡ built b
      → (handle_verify x b parent ≡ true) ↔ (a.forkchoice.head_block_hash ≡ eth_block_hash x parent)
  unfolding block_on
  block_on-Extends a parent b current none on_head later h = cc
  block_on-Extends a parent b current (some none) on_head later h = cc
  block_on-Extends a parent b current (some (some id)) on_head later h =
      block_of-Extends a.forkchoice.head_block_hash parent b current (a.envelope id)
        (λ e got. on_head id e refl got) later h

  proposal_on-Extends :
      (a : Answers x) (parent b : Block x)
      → BuildsOnHead a
      → parent.timestamp + 1 < 2 ^ 64
      → proposal_on x a (some parent) ≡ built b
      → (handle_verify x b parent ≡ true) ↔ (a.forkchoice.head_block_hash ≡ eth_block_hash x parent)
  unfolding proposal_on
  proposal_on-Extends a parent b on_head range h = elim (Bool-cases a.height_reached) [
    | inr gone ↦ absurd (proposed_ne b (rw gone at h))
    | inl reached ↦
        let current = next_timestamp x a.current_millis parent in
        block_on-Extends a parent b current (a.payload_id a.forkchoice (attributes_of current))
          (λ id e got given. on_head current id e got given)
          (next_timestamp_later a.current_millis parent range) (rw reached at h)
  ]

  -- Suppose that the execution client builds a payload on the head that it is given, and that a
  -- later timestamp than the parent's fits a u64. Then a block that is proposed on a parent passes
  -- the verification against that parent exactly if the shared forkchoice has the parent's payload
  -- at its head.
  pub proposal_verifies_iff :
      (genesis_hash digest : Digest) (a : Answers x) (parent b : Block x)
      → BuildsOnHead a
      → parent_of x genesis_hash digest a.parent_block ≡ some parent
      → parent.timestamp + 1 < 2 ^ 64
      → handle_proposal x genesis_hash digest a ≡ built b
      → (handle_verify x b parent ≡ true) ↔ (a.forkchoice.head_block_hash ≡ eth_block_hash x parent)
  unfolding handle_proposal
  proposal_verifies_iff genesis_hash digest a parent b on_head found range h =
      proposal_on-Extends a parent b on_head range (rw found at h)
