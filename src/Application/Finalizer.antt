-- ===== src/Application/Finalizer.antt =====
-- application/src/finalizer.rs: the loop that feeds finalized blocks, in the order of their heights,
-- to the execution client. The syncer, the execution client and the channels answer by the fields of
-- `Answers`; what the loop does to them is a list of effects. The counters of the feature `prom` are
-- left out.
pub mod Order
pub mod Notifications
mod Tests
use sahya_net.Prelude.{
  ℕ, ◌+◌, ◌%◌, ◌^◌, Bool, true, false, ◌&&◌, Option, none, some, List, [], ◌∷◌, ◌++◌, leb,
  if◌then◌else◌,
}
use sahya_net.Types.Digest.{Digest}
use sahya_net.Types.Primitives.{Primitives}
use sahya_net.Types.Block.{Block, eth_block_hash}
use Prim.Native.String.{String}
use Prim.Native.String as Text
use sahya_net.Application.Notifier.{Pending, empty, register, notify_up_to}

-- `ForkchoiceState`
pub record Forkchoice : Type 0 where
  pub head_block_hash : Digest
  pub safe_block_hash : Digest
  pub finalized_block_hash : Digest

abbrev pub forkchoice_of : Digest → Forkchoice
forkchoice_of hash = record {
  head_block_hash = hash;
  safe_block_hash = hash;
  finalized_block_hash = hash;
}

-- The state of the loop. `metadata` is the value under `LATEST_KEY`, `durable` the value at the last
-- `sync`; the forkchoice is shared with the application.
pub record Finalizer : Type 0 where
  pub last_indexed : ℕ
  pub pending : Pending
  pub metadata : Option ℕ
  pub durable : Option ℕ
  pub forkchoice : Forkchoice

-- What ends the wait of an idle turn: a height and its sender, or a new block.
pub data Wake : Type 0 where
  height_notify : ℕ → ℕ → Wake
  new_block : Wake

-- The answers to one turn: `orchestrator.get`, `check_payload(..).is_valid()`, `orchestrator.repair`
-- and the message that `select!` takes. A turn reads only those that it asks for.
pub record Answers (x : Primitives) : Type 0 where
  pub block : Option (Block x)
  pub is_valid : Bool
  pub repaired : Bool
  pub wake : Wake

pub data Effect (x : Primitives) : Type 0 where
  get : ℕ → Effect x
  check_payload : Block x → Effect x
  commit_hash : Forkchoice → Effect x
  sync : ℕ → Effect x
  send : ℕ → Effect x
  processed : ℕ → Digest → Effect x
  repair : ℕ → Effect x
  receive : ℕ → ℕ → Effect x

abbrev pub unwrap_or : Option ℕ → ℕ → ℕ
unwrap_or none d = d
unwrap_or (some n) d = n

-- The partition of the metadata that `Finalizer::new` opens.
abbrev pub metadata_partition : String → String
metadata_partition db_prefix = Text.◌++◌ db_prefix "-finalizer_metadata"

-- `Finalizer::new`, over the metadata that the storage has kept.
unfoldable pub new : Option ℕ → Forkchoice → Finalizer
new stored shared = record {
  last_indexed = unwrap_or stored 0;
  pending = empty;
  metadata = stored;
  durable = stored;
  forkchoice = shared;
}

module _ (x : Primitives) where
  abbrev pub sends : List ℕ → List (Effect x) → List (Effect x)
  sends [] last = last
  sends (sender ∷ rest) last = send sender ∷ sends rest last

  -- A valid block is committed, and the turn ends.
  unfoldable pub commit : ℕ → Block x → Finalizer → Finalizer × List (Effect x)
  commit next block s =
      let forkchoice = forkchoice_of (eth_block_hash x block) in
      let notified = notify_up_to next s.pending in
      (
        record {
          last_indexed = next;
          pending = notified.0;
          metadata = some next;
          durable = some next;
          forkchoice = forkchoice;
        },
        commit_hash forkchoice ∷ sync next ∷ sends notified.1 (processed next block.digest ∷ []),
      )

  -- `select!`: a height that is reached is answered at once.
  unfoldable pub wait : Wake → Finalizer → Finalizer × List (Effect x)
  wait new_block s = (s, [])
  wait (height_notify height sender) s =
      if leb height s.last_indexed
      then (s, receive height sender ∷ send sender ∷ [])
      else (record s { pending = register height sender s.pending }, receive height sender ∷ [])

  -- The rest of a turn that commits no block.
  unfoldable pub idle : ℕ → Answers x → Finalizer → Finalizer × List (Effect x)
  unfolding wait
  idle next a s =
      if a.repaired
      then (s, repair next ∷ [])
      else let (s', effects) = wait a.wake s in (s', repair next ∷ effects)

  unfoldable pub turn_on :
      ℕ → Answers x → Option (Block x) → Finalizer → Finalizer × List (Effect x)
  unfolding commit idle
  turn_on next a none s = let (s', effects) = idle next a s in (s', get next ∷ effects)
  turn_on next a (some block) s =
      if a.is_valid
      then (let (s', effects) = commit next block s in
          (s', get next ∷ check_payload block ∷ effects))
      else (let (s', effects) = idle next a s in (s', get next ∷ check_payload block ∷ effects))

  -- One turn of `loop`. The height wraps as a u64.
  unfoldable pub turn : Answers x → Finalizer → Finalizer × List (Effect x)
  unfolding turn_on
  turn a s = turn_on ((s.last_indexed + 1) % 2 ^ 64) a a.block s

  unfoldable pub run : List (Answers x) → Finalizer → Finalizer × List (Effect x)
  run [] s = (s, [])
  run (a ∷ rest) s =
      let (s', effects) = turn a s in let (s'', later) = run rest s' in (s'', effects ++ later)
