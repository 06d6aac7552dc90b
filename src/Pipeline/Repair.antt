-- ===== src/Pipeline/Repair.antt =====
-- The finalizer's rounds of `get` and `repair` (application/src/finalizer.rs, syncer/src/actor.rs)
-- while no other message comes: each repair moves the end of the gap down to the next height.
pub mod Answers
pub mod Moves
pub mod Ends
pub mod Finds
use sahya_net.Prelude.{
  ℕ, zero, suc, ◌+◌, min, ◌-◌, ◌%◌, ◌^◌, ◌<◌, ◌≤◌, ◌≡◌, ◌≢◌, refl, sym, ap, ◌∙◌, ◌⊎◌, leb, leb→le,
  inl, inr, Bool, true, false, ltb, Option, none, some, List, [], ◌∷◌, ◌++◌, Option-cases,
  Bool-cases, arith, retain,
}
use sahya_net.Types.Digest.{Digest}
use sahya_net.Types.Block.{Block}
use sahya_net.Types.Certified.{Certified}
use sahya_net.Syncer.Environment.{Environment, EnvironmentLaws}
use sahya_net.Syncer.Archive.{Stores, expect, expect-some, Stores-expect}
use sahya_net.Syncer.Key.{MultiIndex, digest, new}
use sahya_net.Syncer.State.{
  State, Effect, fetch, respond_found, respond_bool, Turn, Buffer, ◌>>=◌, or_else, block_of,
  or_else-some, block_of-some,
}
use sahya_net.Syncer.Orchestrate.{
  on_get_next, fetch_heights, enqueue, repair_parent, repair_or_fetch, repair_gap, on_repair,
  on_orchestration, request_range,
}
use sahya_net.Syncer.Actor.{orchestrator, cancel_views, cancel_useless, on_input, turn}
use sahya_net.Pipeline.{found_answer, repair_answer, orchestrator_get, orchestrator_repair}
use sahya_net.Pipeline.Consistent.{get-turn, found_answer-append}

-- What the rounds end with: the block of the next height, the wait for a wake, or a panic.
pub data Outcome (e : Environment) : Type 0 where
  found : Block e.prim → Outcome e
  idle : Outcome e
  panicked : Outcome e
  out_of_fuel : Outcome e

module _ (e : Environment) where
  -- `orchestrator.get(next).await`; a missing answer is the panic of `receiver.await.unwrap()`.
  abbrev pub looked_at :
      (State e → Outcome e) → State e → Option (Option (Block e.prim)) → Outcome e
  looked_at k s (some (some b)) = found b
  looked_at k s (some none) = k s
  looked_at k s none = panicked

  abbrev pub looked : (State e → Outcome e) → Turn e → Outcome e
  looked k none = panicked
  looked k (some (s, effects)) = looked_at k s (found_answer e effects)

  -- `if orchestrator.repair(next).await { continue; }`
  abbrev pub mended_with : (State e → Outcome e) → State e → Option Bool → Outcome e
  mended_with k s (some true) = k s
  mended_with k s (some false) = idle
  mended_with k s none = panicked

  abbrev pub mended : (State e → Outcome e) → Turn e → Outcome e
  mended k none = panicked
  mended k (some (s, effects)) = mended_with k s (repair_answer e effects)

  unfoldable pub repairs : ℕ → ℕ → Buffer e → State e → Outcome e
  repairs zero next buffer s = out_of_fuel
  repairs (suc fuel) next buffer s =
      looked
        (λ s'.
          mended (λ s''. repairs fuel next buffer s'')
            (turn e buffer (orchestrator (orchestrator_repair next)) s'))
        (turn e buffer (orchestrator (orchestrator_get next)) s)

  -- A digest belongs to one height, and a block stands one above its parent.
  abbrev pub LinksBy : (Digest → ℕ) → Digest → Block e.prim → Type 0
  LinksBy height_of k b = (height_of k ≡ b.height) × (height_of b.parent ≡ b.height - 1)

  pub record IsLinked (height_of : Digest → ℕ) (s : State e) : Type 0 where
    pub verified : Stores e.verified (λ i k b. LinksBy height_of k b) s.verified
    pub notarized : Stores e.notarized (λ i k n. LinksBy height_of k n.block) s.notarized
    pub blocks : Stores e.blocks (λ i k b. (b.height ≡ i) × LinksBy height_of k b) s.blocks

  -- If nothing stands at the next height, then what stands above starts at most `n` above it.
  abbrev pub GapWithin : ℕ → ℕ → State e → Type 0
  GapWithin n next s =
      (g : ℕ)
      → e.blocks.get_index next s.blocks ≡ none
      → (e.blocks.next_gap next s.blocks).1 ≡ some g
      → g ≤ next + n
