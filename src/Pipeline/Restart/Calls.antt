-- ===== src/Pipeline/Restart/Calls.antt =====
-- What the execution client is told over stops and restarts of the node, those between `commit_hash`
-- and the sync of the height included.
use sahya_net.Prelude.{
  ℕ, ◌+◌, ◌^◌, ◌<◌, ◌≤◌, ◌≡◌, refl, sym, ◌∙◌, ◌⊎◌, inl, inr, Bool, true, false, Option, some, none,
  List, [], ◌∷◌, ◌++◌, length, length-append, arith,
}
use sahya_net.Types.Digest.{Digest}
use sahya_net.Types.Primitives.{Primitives}
use sahya_net.Types.Block.{Block}
use sahya_net.Syncer.Environment.{Environment, EnvironmentLaws}
use sahya_net.Syncer.Coherence.{IsCoherent}
use sahya_net.Syncer.Opening.{Storage}
use sahya_net.Application.Finalizer
use sahya_net.Application.Finalizer.{Forkchoice, forkchoice_of, unwrap_or, commit}
use sahya_net.Pipeline.{
  Phase, looking, checking, persisting, reporting, repairing, waiting, Pipeline, next_height, Step,
  consensus, network, look, accept, persist, reject, report, mend, wake, after_get, after_repair,
}
use sahya_net.Pipeline.Consistent.{IsConsistent, Descends, wait_keeps}
use sahya_net.Pipeline.Safety.{Step-length}
use sahya_net.Pipeline.Restart.{Life, born, stepped, restarted, Life-Holds, Life-in_order}
use Prim.Native.String.{String}

module _ {x : Primitives} where
  -- The height of the newest call, or 0 in front of the first.
  abbrev pub head_height : List (Block x) → ℕ
  head_height [] = 0
  head_height (b ∷ rest) = b.height

  -- From the first call on, each is of the height of the one before or of the next height, and the
  -- first is of height 1.
  abbrev pub InTurn : List (Block x) → Type 0
  InTurn [] = Unit
  InTurn (b ∷ rest) =
      (1 ≤ b.height)
      × ((b.height ≡ head_height rest) ⊎ (b.height ≡ head_height rest + 1))
      × InTurn rest

module _ {e : Environment} (laws : EnvironmentLaws e) (d : Storage e) (prefix : String)
    (genesis_hash : Digest) where
  -- Behind the call the finalizer is one height below it.
  abbrev PhaseTells : Pipeline e → Phase e → Type 0
  PhaseTells p looking = Unit
  PhaseTells p (checking b) = Unit
  PhaseTells p (persisting b) = head_height p.calls ≡ p.finalizer.last_indexed + 1
  PhaseTells p (reporting height digest) = Unit
  PhaseTells p repairing = Unit
  PhaseTells p waiting = Unit

  record Tells (p : Pipeline e) : Type 0 where
    pub in_turn : InTurn p.calls
    pub newest :
        (head_height p.calls ≡ p.finalizer.last_indexed)
        ⊎ (head_height p.calls ≡ p.finalizer.last_indexed + 1)
    pub phase_tells : PhaseTells p p.phase

  after_get-tells : (p : Pipeline e) (o : Option (Block e.prim)) → PhaseTells p (after_get e o)
  after_get-tells p none = tt
  after_get-tells p (some b) = tt

  after_repair-tells : (p : Pipeline e) (b : Bool) → PhaseTells p (after_repair e b)
  after_repair-tells p true = tt
  after_repair-tells p false = tt

  Step-Tells :
      {p q : Pipeline e} {first : ℕ} {f : Forkchoice}
      → Step e p q
      → first + length p.committed + 1 < 2 ^ 64
      → IsConsistent e first f p
      → Tells p
      → Tells q
  unfolding commit
  Step-Tells (consensus buffer m hb t) range c h = record {
    in_turn = h.in_turn;
    newest = h.newest;
    phase_tells = h.phase_tells;
  }
  Step-Tells (network buffer m hb t) range c h = record {
    in_turn = h.in_turn;
    newest = h.newest;
    phase_tells = h.phase_tells;
  }
  Step-Tells {p} {q} (look buffer o hb at t a) range c h = record {
    in_turn = h.in_turn;
    newest = h.newest;
    phase_tells = after_get-tells q o;
  }
  Step-Tells {p} (accept b at) range c h =
      let (k, held) =
        laws.blocks.get_index-Holds (next_height e p) p.syncer.blocks b (rw at at c.found) in
      let high : b.height ≡ next_height e p = (c.coherent.blocks (next_height e p) k b held).0 in
      let next : b.height ≡ p.finalizer.last_indexed + 1 =
        (let at_height = c.at_height in omega arith) in
      record {
        in_turn = (
          omega (arith, next),
          elim h.newest [
            | inl same ↦ inr (omega (arith, next, same))
            | inr ahead ↦ inl (omega (arith, next, ahead))
          ],
          h.in_turn,
        );
        newest = inr next;
        phase_tells = next;
      }
  Step-Tells {p} (persist b at) range c h =
      let told : head_height p.calls ≡ p.finalizer.last_indexed + 1 = rw at at h.phase_tells in
      record {
        in_turn = h.in_turn;
        newest = inl (let at_height = c.at_height in omega (arith, told));
        phase_tells = tt;
      }
  Step-Tells (reject b at) range c h = record {
    in_turn = h.in_turn;
    newest = h.newest;
    phase_tells = tt;
  }
  Step-Tells (report buffer height digest hb at t) range c h = record {
    in_turn = h.in_turn;
    newest = h.newest;
    phase_tells = tt;
  }
  Step-Tells {p} {q} (mend buffer b hb at t a) range c h = record {
    in_turn = h.in_turn;
    newest = h.newest;
    phase_tells = after_repair-tells q b;
  }
  Step-Tells {p} (wake w at) range c h = record {
    in_turn = h.in_turn;
    newest = rw (wait_keeps e w p.finalizer).0 h.newest;
    phase_tells = tt;
  }

  Life-Tells :
      {p : Pipeline e} {past : List (Block e.prim)}
      → Life d prefix genesis_hash p past
      → length (p.committed ++ past) + 1 < 2 ^ 64
      → Tells p
  unfolding sahya_net.Application.Finalizer.new
  Life-Tells (born c) range = record { in_turn = tt; newest = inl refl; phase_tells = tt }
  Life-Tells (stepped {p} {q} {past} life step) range =
      let more = Step-length e laws 0 (forkchoice_of genesis_hash) step in
      let before : length past + length p.committed + 1 < 2 ^ 64 =
        omega (arith, range, more, length-append q.committed past) in
      let whole : length (p.committed ++ past) + 1 < 2 ^ 64 =
        omega (arith, before, length-append p.committed past) in
      Step-Tells step before
        (Life-Holds laws d prefix genesis_hash life (omega (arith, whole))).consistent
        (Life-Tells life whole)
  Life-Tells (restarted {p} {past} {s} disk life left opened) range =
      let h = Life-Tells life range in
      let (in_order, at, durable, coherent) =
        Life-in_order laws d prefix genesis_hash life (omega (arith, range)) in
      record { in_turn = h.in_turn; newest = rw (durable ∙ sym at) h.newest; phase_tells = tt }

  -- Let a node start over coherent archives and no stored height, take any steps, and be stopped and
  -- started again any number of times, at any point, over storage that may have lost items of the
  -- archives but holds no others. While one more height fits a u64, the blocks whose height it has
  -- stored in its whole life have the heights 1, 2, 3 and so on, each exactly once and in order; the
  -- finalizer's height is their number, and so is the height that a restart would read; and the
  -- archives are coherent. The calls of `commit_hash` begin with height 1, and each is of the height
  -- of the one before or of the next height, so that no height is left out and a height may be told
  -- again; the newest is of the finalizer's height, or of the next one if the node has told of it
  -- without storing it.
  pub Life-tells :
      {p : Pipeline e} {past : List (Block e.prim)}
      → Life d prefix genesis_hash p past
      → length (p.committed ++ past) + 1 < 2 ^ 64
      → Descends e 0 (p.committed ++ past)
        × (p.finalizer.last_indexed ≡ length (p.committed ++ past))
        × (unwrap_or p.finalizer.durable 0 ≡ length (p.committed ++ past))
        × IsCoherent e p.syncer
        × InTurn p.calls
        × ((head_height p.calls ≡ p.finalizer.last_indexed)
            ⊎ (head_height p.calls ≡ p.finalizer.last_indexed + 1))
  Life-tells {p} {past} life range =
      let h = Life-Tells life range in
      let (in_order, at, durable, coherent) =
        Life-in_order laws d prefix genesis_hash life (omega (arith, range)) in
      (in_order, at, durable, coherent, h.in_turn, h.newest)
