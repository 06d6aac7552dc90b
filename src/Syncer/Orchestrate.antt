-- ===== src/Syncer/Orchestrate.antt =====
-- syncer/src/actor.rs, the messages of the finalizer: the arms of `match orchestrator_message`.
use sahya_net.Prelude.{
  min, ℕ, zero, suc, ◌+◌, ◌-◌, ◌%◌, ◌^◌, true, false, Option, none, some, List, [], ◌∷◌, ltb,
  if◌then◌else◌, contains, insert, retain,
}
use sahya_net.Types.Digest.{Digest}
use sahya_net.Types.Block.{Block}
use sahya_net.Syncer.Environment.{Environment}
use sahya_net.Syncer.Archive.{expect}
use sahya_net.Syncer.Key.{finalized, digest, new}
use sahya_net.Syncer.Messages.{Orchestration, get_next, processed, repair}
use sahya_net.Syncer.State.{
  State, Effect, fetch, cancel, respond_found, respond_bool, Turn, ◌>>=◌, block_of, or_else,
}

-- `for height in range`, with the rounds that are left: a height that was requested is passed over.
-- The result is the new set of requested heights and the heights that are fetched now.
unfoldable pub request_range : ℕ → ℕ → List ℕ → List ℕ × List ℕ
request_range zero height requested = (requested, [])
request_range (suc rounds) height requested =
    let known = contains requested height in
    let rest =
      request_range rounds (suc height) (if known then requested else insert height requested) in
    (rest.0, if known then rest.1 else height ∷ rest.1)

module _ (e : Environment) where
  -- `Orchestration::Get`
  unfoldable pub on_get_next : ℕ → State e → Turn e
  on_get_next height s = some (s, respond_found (e.blocks.get_index height s.blocks) ∷ [])

  -- `last_view_processed` moves only if the height has a finalization.
  unfoldable pub view_processed : ℕ → Option e.Finalization → ℕ
  view_processed last none = last
  view_processed last (some f) = e.finalization.view f

  -- `Orchestration::Processed`
  unfoldable pub on_processed : ℕ → Digest → State e → Turn e
  unfolding view_processed
  on_processed height d s = some (
    record s {
      last_view_processed =
          view_processed s.last_view_processed (e.finalized.get_index height s.finalized);
      requested_blocks = retain (ltb height) s.requested_blocks;
    },
    cancel (new (finalized height)) ∷ cancel (new (digest d)) ∷ [],
  )

  abbrev pub fetch_heights : List ℕ → List (Effect e) → List (Effect e)
  fetch_heights [] last = last
  fetch_heights (height ∷ rest) last = fetch (new (finalized height)) ∷ fetch_heights rest last

  -- Enqueue the next heights below the gap's end, 20 at most; `next + 20` wraps as a u64.
  unfoldable pub enqueue : ℕ → ℕ → State e → State e × List (Effect e)
  enqueue next start_next s =
      let last = min start_next ((next + 20) % 2 ^ 64) in
      let asked = request_range (last - next) next s.requested_blocks in
      (record s { requested_blocks = asked.0 }, fetch_heights asked.1 (respond_bool false ∷ []))

  -- The parent of the gapped block is in another store: it is moved to the finalized blocks.
  unfoldable pub repair_parent : Digest → Block e.prim → State e → Turn e
  repair_parent target block s = do
    blocks ← expect (e.blocks.put block.height target block s.blocks)
    some (record s { blocks = blocks }, respond_bool true ∷ [])

  unfoldable pub repair_or_fetch : ℕ → ℕ → Digest → Option (Block e.prim) → State e → Turn e
  unfolding repair_parent
  repair_or_fetch next start_next target (some block) s = repair_parent target block s
  repair_or_fetch next start_next target none s =
      let (s', effects) = enqueue next start_next s in
      some (s', fetch (new (digest target)) ∷ effects)

  unfoldable pub repair_gap : ℕ → Option ℕ → State e → Turn e
  unfolding repair_or_fetch
  repair_gap next none s = some (s, respond_bool false ∷ [])
  repair_gap next (some start_next) s =
      if ltb 0 next
      then (e.blocks.get_index start_next s.blocks >>= λ gapped_block.
          let target = gapped_block.parent in
          repair_or_fetch next start_next target
            (or_else (e.verified.get_key target s.verified)
              (block_of e (e.notarized.get_key target s.notarized)))
            s)
      else some (enqueue next start_next s)

  -- `Orchestration::Repair`
  unfoldable pub on_repair : ℕ → State e → Turn e
  unfolding repair_gap
  on_repair next s = repair_gap next (e.blocks.next_gap next s.blocks).1 s

  unfoldable pub on_orchestration : Orchestration → State e → Turn e
  on_orchestration (get_next height) s = on_get_next height s
  on_orchestration (processed height d) s = on_processed height d s
  on_orchestration (repair next) s = on_repair next s
