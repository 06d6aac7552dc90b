-- ===== src/Pipeline/Safety.antt =====
-- Whatever the order of the steps, the finalizer commits the stored blocks, one height after the
-- other, and what it has committed stays stored.
use sahya_net.Prelude.{
  ℕ, suc, ◌+◌, ◌^◌, ◌<◌, ◌≤◌, ◌≡◌, refl, ap, ◌∙◌, some, List, [], ◌∷◌, length, arith,
}
use sahya_net.Types.Block.{Block}
use sahya_net.Syncer.Environment.{Environment, EnvironmentLaws}
use sahya_net.Syncer.State.{State, Effect, Buffer}
use sahya_net.Syncer.Actor.{Input, mailbox, orchestrator, handler, turn}
use sahya_net.Syncer.Coherence.{IsCoherent, IsBuffer, Ensures-some}
use sahya_net.Syncer.Coherence.Loop.{turn-IsCoherent}
use sahya_net.Syncer.Persistence.Loop.{turn-keeps_block}
use sahya_net.Application.Finalizer.{Forkchoice, commit}
use sahya_net.Pipeline.{
  Phase, looking, checking, persisting, reporting, repairing, waiting, Pipeline, next_height,
  after_get, after_repair, orchestrator_get, Step, consensus, network, look, accept, persist,
  reject, report, mend, wake, Reach, here, later,
}
use sahya_net.Pipeline.Consistent.{
  PhaseHolds, IsConsistent, All-stays, get-answer, wait_keeps, after_repair-holds, after_get-holds,
}

module _ (e : Environment) (laws : EnvironmentLaws e) (first : ℕ) (f : Forkchoice) where
  abbrev Holds : Pipeline e → Type 0
  Holds = IsConsistent e first f

  PhaseHolds-stays :
      (p : Pipeline e) (s : State e) (ph : Phase e)
      → ((h : ℕ) (b : Block e.prim)
          → e.blocks.get_index h p.syncer.blocks ≡ some b
          → e.blocks.get_index h s.blocks ≡ some b)
      → PhaseHolds e p ph
      → PhaseHolds e (record p { syncer = s }) ph
  PhaseHolds-stays p s looking k h = tt
  PhaseHolds-stays p s (checking b) k h = k _ b h
  PhaseHolds-stays p s (persisting b) k h = k _ b h
  PhaseHolds-stays p s (reporting height d) k h = tt
  PhaseHolds-stays p s repairing k h = tt
  PhaseHolds-stays p s waiting k h = tt

  -- A turn of the syncer, whatever the finalizer's phase becomes.
  turn-Holds :
      (p : Pipeline e) (buffer : Buffer e) (input : Input e) (ph : Phase e) {s : State e}
      {effects : List (Effect e)}
      → IsBuffer e buffer
      → turn e buffer input p.syncer ≡ some (s, effects)
      → PhaseHolds e (record p { syncer = s; phase = ph }) ph
      → Holds p
      → Holds (record p { syncer = s; phase = ph })
  turn-Holds p buffer input ph {s} hb t found c = record {
    coherent =
        Ensures-some e (IsCoherent e) (turn e buffer input p.syncer) t
          (turn-IsCoherent e laws buffer input p.syncer hb c.coherent);
    at_height = c.at_height;
    in_order = c.in_order;
    all_stored =
        All-stays e p.syncer s p.committed
          (λ b. turn-keeps_block e laws b.height b buffer input p.syncer t) c.all_stored;
    tip = c.tip;
    found = found;
  }

  outside-Holds :
      (p : Pipeline e) (buffer : Buffer e) (input : Input e) {s : State e}
      {effects : List (Effect e)}
      → IsBuffer e buffer
      → turn e buffer input p.syncer ≡ some (s, effects)
      → Holds p
      → Holds (record p { syncer = s })
  outside-Holds p buffer input {s} hb t c =
      turn-Holds p buffer input p.phase hb t
        (PhaseHolds-stays p s p.phase (λ h b. turn-keeps_block e laws h b buffer input p.syncer t)
          c.found)
        c

  persist-Holds :
      (p : Pipeline e) (b : Block e.prim)
      → e.blocks.get_index (next_height e p) p.syncer.blocks ≡ some b
      → first + suc (length p.committed) < 2 ^ 64
      → Holds p
      → Holds (record p {
        finalizer = (commit e.prim (next_height e p) b p.finalizer).0;
        phase = reporting (next_height e p) b.digest;
        committed = b ∷ p.committed;
      })
  unfolding commit
  persist-Holds p b found range c =
      let (k, held) = laws.blocks.get_index-Holds (next_height e p) p.syncer.blocks b found in
      let high : b.height ≡ next_height e p = (c.coherent.blocks (next_height e p) k b held).0 in
      let next : next_height e p ≡ first + suc (length p.committed) =
        (let at = c.at_height in omega arith) in
      record {
        coherent = c.coherent;
        at_height = next;
        in_order = (high ∙ next, c.in_order);
        all_stored = (ap (λ h. e.blocks.get_index h p.syncer.blocks) high ∙ found, c.all_stored);
        tip = refl;
        found = tt;
      }

  pub Step-Holds :
      {p q : Pipeline e} → Step e p q → first + length q.committed < 2 ^ 64 → Holds p → Holds q
  Step-Holds {p} (consensus buffer m hb t) range c = outside-Holds p buffer (mailbox m) hb t c
  Step-Holds {p} (network buffer m hb t) range c = outside-Holds p buffer (handler m) hb t c
  Step-Holds {p} (look buffer o {s} hb at t a) range c =
      turn-Holds p buffer (orchestrator (orchestrator_get (next_height e p))) (after_get e o) hb t
        (PhaseHolds-stays p s (after_get e o)
          (λ h b.
            turn-keeps_block e laws h b buffer (orchestrator (orchestrator_get (next_height e p)))
              p.syncer t)
          (after_get-holds e p o (get-answer e buffer (next_height e p) p.syncer o t a)))
        c
  Step-Holds {p} (accept b at) range c = record {
    coherent = c.coherent;
    at_height = c.at_height;
    in_order = c.in_order;
    all_stored = c.all_stored;
    tip = c.tip;
    found = rw at at c.found;
  }
  Step-Holds {p} (persist b at) range c = persist-Holds p b (rw at at c.found) range c
  Step-Holds {p} (reject b at) range c = record {
    coherent = c.coherent;
    at_height = c.at_height;
    in_order = c.in_order;
    all_stored = c.all_stored;
    tip = c.tip;
    found = tt;
  }
  Step-Holds {p} (report buffer height d hb at t) range c =
      turn-Holds p buffer (orchestrator _) looking hb t tt c
  Step-Holds {p} (mend buffer b {s} hb at t a) range c =
      turn-Holds p buffer (orchestrator _) (after_repair e b) hb t
        (after_repair-holds e (record p { syncer = s; phase = after_repair e b }) b) c
  Step-Holds {p} (wake w at) range c = record {
    coherent = c.coherent;
    at_height = (wait_keeps e w p.finalizer).0 ∙ c.at_height;
    in_order = c.in_order;
    all_stored = c.all_stored;
    tip = (wait_keeps e w p.finalizer).1 ∙ c.tip;
    found = tt;
  }

  pub Step-length : {p q : Pipeline e} → Step e p q → length p.committed ≤ length q.committed
  Step-length (consensus buffer m hb t) = omega arith
  Step-length (network buffer m hb t) = omega arith
  Step-length (look buffer o hb at t a) = omega arith
  Step-length (accept b at) = omega arith
  Step-length (persist b at) = omega arith
  Step-length (reject b at) = omega arith
  Step-length (report buffer height d hb at t) = omega arith
  Step-length (mend buffer b hb at t a) = omega arith
  Step-length (wake w at) = omega arith

  Reach-Holds :
      {p q : Pipeline e} → Reach e p q → first + length q.committed < 2 ^ 64 → Holds p → Holds q
  Reach-Holds here range c = c
  Reach-Holds (later r st) range c =
      Step-Holds st range (Reach-Holds r (let more = Step-length st in omega arith) c)

module _ (e : Environment) (laws : EnvironmentLaws e) where
  pub start-IsConsistent :
      (p : Pipeline e)
      → IsCoherent e p.syncer
      → p.phase ≡ looking
      → p.committed ≡ []
      → IsConsistent e p.finalizer.last_indexed p.finalizer.forkchoice p
  start-IsConsistent p c at none_yet = record {
    coherent = c;
    at_height = rw none_yet (omega arith);
    in_order = rw none_yet tt;
    all_stored = rw none_yet tt;
    tip = rw none_yet refl;
    found = rw at tt;
  }

  -- Start with coherent archives and a finalizer at the head of its loop that has committed nothing
  -- yet. However the messages of the consensus engine, those of peers and the finalizer's requests
  -- interleave, and whatever the execution client answers: while the heights fit a u64, the blocks
  -- that were committed have the heights that follow the first one, without a gap; each still stands
  -- in the archive under its height; the finalizer's height is that of the newest, and the shared
  -- forkchoice names its payload; and the archives are coherent.
  pub Reach-IsConsistent :
      {p q : Pipeline e}
      → Reach e p q
      → IsCoherent e p.syncer
      → p.phase ≡ looking
      → p.committed ≡ []
      → p.finalizer.last_indexed + length q.committed < 2 ^ 64
      → IsConsistent e p.finalizer.last_indexed p.finalizer.forkchoice q
  Reach-IsConsistent {p} r c at none_yet range =
      Reach-Holds e laws p.finalizer.last_indexed p.finalizer.forkchoice r range
        (start-IsConsistent p c at none_yet)
