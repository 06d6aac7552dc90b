-- ===== src/Pipeline/Agreed/Final.antt =====
-- A node commits final blocks only.
use sahya_net.Prelude.{ℕ, ◌≡◌, Option, none, some, true, false, Bool, List, [], ◌∷◌, ◌++◌, All}
use sahya_net.Types.Digest.{Digest}
use sahya_net.Types.Block.{Block}
use sahya_net.Syncer.Environment.{Environment, EnvironmentLaws}
use sahya_net.Syncer.Key.{MultiIndex}
use sahya_net.Syncer.State.{State, Effect, Buffer}
use sahya_net.Syncer.Actor.{mailbox, orchestrator, handler, turn}
use sahya_net.Syncer.Opening.{Storage}
use sahya_net.Syncer.Agreement.{Network, IsGenuine}
use sahya_net.Syncer.Agreement.Loop.{IsGuarded, turn-IsGuarded, new-IsGuarded}
use sahya_net.Pipeline.{
  Phase, looking, checking, persisting, reporting, repairing, waiting, Pipeline, Step, consensus,
  network, look, accept, persist, reject, report, mend, wake, orchestrator_get, found_answer,
  after_get, after_repair, next_height,
}
use sahya_net.Pipeline.Consistent.{get-answer}
use sahya_net.Pipeline.Agreed.{IsProper, keys_after, Membership, joins, steps, restarts}
use Prim.Native.String.{String}

module _ {e : Environment} (laws : EnvironmentLaws e) (net : Network e) where
  -- Genuine, and finalized or an ancestor of what is.
  abbrev pub IsFinal : Block e.prim → Type 0
  IsFinal b = IsGenuine e b × net.Final b.digest

  abbrev PhaseIsFinal : Phase e → Type 0
  PhaseIsFinal looking = Unit
  PhaseIsFinal (checking b) = IsFinal b
  PhaseIsFinal (persisting b) = IsFinal b
  PhaseIsFinal (reporting height d) = Unit
  PhaseIsFinal repairing = Unit
  PhaseIsFinal waiting = Unit

  pub record CommitsFinal (p : Pipeline e) (past : List (Block e.prim)) (keys : List MultiIndex)
      : Type 0 where
    pub guarded : IsGuarded laws net p.syncer keys
    pub found : PhaseIsFinal p.phase
    pub committed : All IsFinal p.committed
    pub past_committed : All IsFinal past

  -- What the syncer answers to `get` is final.
  answer-IsFinal :
      (buffer : Buffer e) (h : ℕ) {s s' : State e} {keys : List MultiIndex}
      {effects : List (Effect e)} (o : Option (Block e.prim))
      → IsGuarded laws net s keys
      → turn e buffer (orchestrator (orchestrator_get h)) s ≡ some (s', effects)
      → found_answer e effects ≡ some o
      → PhaseIsFinal (after_get e o)
  answer-IsFinal buffer h none g ok answered = tt
  answer-IsFinal buffer h {s} (some b) g ok answered =
      let stands = get-answer e buffer h s (some b) ok answered in
      let (k, held) = laws.blocks.get_index-Holds h s.blocks b stands in
      let (genuine, final) = g.only_final.blocks h k b held in
      (genuine, rw (g.coherent.blocks h k b held).1 final)

  after_repair-IsFinal : (b : Bool) → PhaseIsFinal (after_repair e b)
  after_repair-IsFinal true = tt
  after_repair-IsFinal false = tt

  Step-CommitsFinal :
      {p q : Pipeline e} {past : List (Block e.prim)} {keys : List MultiIndex} (st : Step e p q)
      → IsProper keys st
      → CommitsFinal p past keys
      → CommitsFinal q past (keys_after keys st)
  Step-CommitsFinal {p} {past} {keys} (consensus buffer m hb t) proper c = record {
    guarded =
        turn-IsGuarded laws net buffer (mailbox m) p.syncer keys proper.0 proper.1 t c.guarded;
    found = c.found;
    committed = c.committed;
    past_committed = c.past_committed;
  }
  Step-CommitsFinal {p} {past} {keys} (network buffer m hb t) proper c = record {
    guarded =
        turn-IsGuarded laws net buffer (handler m) p.syncer keys proper.0 proper.1 t c.guarded;
    found = c.found;
    committed = c.committed;
    past_committed = c.past_committed;
  }
  Step-CommitsFinal {p} {past} {keys} (look buffer o hb at t a) proper c = record {
    guarded = turn-IsGuarded laws net buffer (orchestrator _) p.syncer keys proper tt t c.guarded;
    found = answer-IsFinal buffer (next_height e p) o c.guarded t a;
    committed = c.committed;
    past_committed = c.past_committed;
  }
  Step-CommitsFinal {p} (accept b at) proper c = record {
    guarded = c.guarded;
    found = rw at at c.found;
    committed = c.committed;
    past_committed = c.past_committed;
  }
  Step-CommitsFinal {p} (persist b at) proper c = record {
    guarded = c.guarded;
    found = tt;
    committed = (rw at at c.found, c.committed);
    past_committed = c.past_committed;
  }
  Step-CommitsFinal (reject b at) proper c = record {
    guarded = c.guarded;
    found = tt;
    committed = c.committed;
    past_committed = c.past_committed;
  }
  Step-CommitsFinal {p} {past} {keys} (report buffer height d hb at t) proper c = record {
    guarded = turn-IsGuarded laws net buffer (orchestrator _) p.syncer keys proper tt t c.guarded;
    found = tt;
    committed = c.committed;
    past_committed = c.past_committed;
  }
  Step-CommitsFinal {p} {past} {keys} (mend buffer b hb at t a) proper c = record {
    guarded = turn-IsGuarded laws net buffer (orchestrator _) p.syncer keys proper tt t c.guarded;
    found = after_repair-IsFinal b;
    committed = c.committed;
    past_committed = c.past_committed;
  }
  Step-CommitsFinal (wake w at) proper c = record {
    guarded = c.guarded;
    found = tt;
    committed = c.committed;
    past_committed = c.past_committed;
  }

  pub All-append :
      (l past : List (Block e.prim)) → All IsFinal l → All IsFinal past → All IsFinal (l ++ past)
  All-append [] past h k = k
  All-append (b ∷ l) past h k = (h.0, All-append l past h.1 k)

  pub Membership-CommitsFinal :
      {d : Storage e} {prefix : String} {genesis_hash : Digest} {p : Pipeline e}
      {past : List (Block e.prim)} {keys : List MultiIndex}
      → Membership net d prefix genesis_hash p past keys
      → CommitsFinal p past keys
  Membership-CommitsFinal (joins coherent final) = record {
    guarded = record { coherent = coherent; only_final = final; keys_final = tt };
    found = tt;
    committed = tt;
    past_committed = tt;
  }
  Membership-CommitsFinal (steps m st proper) =
      Step-CommitsFinal st proper (Membership-CommitsFinal m)
  Membership-CommitsFinal {d} {prefix} (restarts {p} {past} {keys} {s} disk m left opened) =
      let c = Membership-CommitsFinal m in
      record {
        guarded = new-IsGuarded laws net d prefix p.syncer s keys disk c.guarded left opened;
        found = tt;
        committed = tt;
        past_committed = All-append p.committed past c.committed c.past_committed;
      }
