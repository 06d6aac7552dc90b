-- ===== src/Pipeline/Restart.antt =====
-- The finalizer and the syncer over stops and restarts of the node: the archives are opened again,
-- the finalizer reads its height from the metadata, and all else begins anew.
pub mod Sample
pub mod Calls
mod Tests
use sahya_net.Prelude.{
  ℕ, zero, ◌+◌, ◌%◌, ◌^◌, ◌<◌, ◌≤◌, ◌≡◌, refl, sym, ap, ◌∙◌, Option, some, none, List, [], ◌∷◌,
  ◌++◌, length, length-append, arith,
}
use sahya_net.Types.Digest.{Digest}
use sahya_net.Types.Block.{Block}
use sahya_net.Syncer.Environment.{Environment, EnvironmentLaws}
use sahya_net.Syncer.State.{State}
use sahya_net.Syncer.Coherence.{IsCoherent}
use sahya_net.Syncer.Opening
use sahya_net.Syncer.Opening.{Storage}
use sahya_net.Syncer.Opening.Restart.{IsLeft, new-IsCoherent}
use sahya_net.Application.Finalizer.{
  Finalizer, Forkchoice, forkchoice_of, Wake, height_notify, new_block, new, unwrap_or, commit,
  wait,
}
use sahya_net.Pipeline.{
  Pipeline, looking, Step, consensus, network, look, accept, persist, reject, report, mend, wake,
}
use sahya_net.Pipeline.Consistent.{IsConsistent, Descends}
use sahya_net.Pipeline.Safety.{Step-Holds, Step-length, start-IsConsistent}
use Prim.Native.String.{String}

-- The node as it starts, over opened archives and the stored metadata.
abbrev pub started :
    {e : Environment} → Digest → Option ℕ → List (Block e.prim) → State e → Pipeline e
started genesis_hash stored calls s = record {
  syncer = s;
  finalizer = new stored (forkchoice_of genesis_hash);
  phase = looking;
  calls = calls;
  committed = [];
}

-- A life of a node, with the blocks whose height it had stored before its last restart, newest
-- first.
pub data Life {e : Environment} (d : Storage e) (prefix : String) (genesis_hash : Digest)
    : Pipeline e → List (Block e.prim) → Type 0 where
  born :
      {s : State e}
      → IsCoherent e s
      → Life d prefix genesis_hash (started genesis_hash none [] s) []
  stepped :
      {p q : Pipeline e} {past : List (Block e.prim)}
      → Life d prefix genesis_hash p past
      → Step e p q
      → Life d prefix genesis_hash q past
  restarted :
      {p : Pipeline e} {past : List (Block e.prim)} {s : State e} (disk : d.Disk)
      → Life d prefix genesis_hash p past
      → IsLeft d prefix p.syncer disk
      → sahya_net.Syncer.Opening.new d prefix disk ≡ some s
      → Life d prefix genesis_hash
          (started genesis_hash p.finalizer.durable p.calls s)
          (p.committed ++ past)

module _ {e : Environment} (laws : EnvironmentLaws e) (d : Storage e) (prefix : String)
    (genesis_hash : Digest) where
  abbrev IsStored : Finalizer → Type 0
  IsStored f = unwrap_or f.durable 0 ≡ f.last_indexed

  wait-IsStored : (w : Wake) (f : Finalizer) → IsStored f → IsStored (wait e.prim w f).0
  unfolding wait
  wait-IsStored new_block f h = h
  wait-IsStored (height_notify height sender) f h = ground arith

  Step-IsStored : {p q : Pipeline e} → Step e p q → IsStored p.finalizer → IsStored q.finalizer
  Step-IsStored (consensus buffer m hb t) h = h
  Step-IsStored (network buffer m hb t) h = h
  Step-IsStored (look buffer o hb at t a) h = h
  Step-IsStored (accept b at) h = h
  Step-IsStored (persist b at) h = unfold commit in refl
  Step-IsStored (reject b at) h = h
  Step-IsStored (report buffer height digest hb at t) h = h
  Step-IsStored (mend buffer b hb at t a) h = h
  Step-IsStored {p} (wake w at) h = wait-IsStored w p.finalizer h

  -- What holds at any time of a life.
  pub record Holds (p : Pipeline e) (past : List (Block e.prim)) : Type 0 where
    pub forkchoice : Forkchoice
    pub consistent : IsConsistent e (length past) forkchoice p
    pub stored : IsStored p.finalizer
    pub past_in_order : Descends e 0 past

  Descends-append :
      (l past : List (Block e.prim))
      → Descends e (length past) l
      → Descends e 0 past
      → Descends e 0 (l ++ past)
  Descends-append [] past h k = k
  Descends-append (b ∷ l) past h k =
      (omega (arith, h.0, length-append l past), Descends-append l past h.1 k)

  started-IsConsistent :
      (stored : Option ℕ) (calls : List (Block e.prim)) (s : State e) (n : ℕ)
      → IsCoherent e s
      → unwrap_or stored 0 ≡ n
      → IsConsistent e n (forkchoice_of genesis_hash) (started genesis_hash stored calls s)
  unfolding new
  started-IsConsistent stored calls s n c at =
      rw (← at) (start-IsConsistent e laws (started genesis_hash stored calls s) c refl refl)

  pub Life-Holds :
      {p : Pipeline e} {past : List (Block e.prim)}
      → Life d prefix genesis_hash p past
      → length (p.committed ++ past) < 2 ^ 64
      → Holds p past
  Life-Holds (born {s} c) range = record {
    forkchoice = forkchoice_of genesis_hash;
    consistent = started-IsConsistent none [] s 0 c refl;
    stored = unfold new in refl;
    past_in_order = tt;
  }
  Life-Holds (stepped {p} {q} {past} life step) range =
      let more = Step-length e laws (length past) (forkchoice_of genesis_hash) step in
      let h = Life-Holds life (
        omega
          (arith, range, more, length-append p.committed past, length-append q.committed past)) in
      record {
        forkchoice = h.forkchoice;
        consistent =
            Step-Holds e laws (length past) h.forkchoice step
              (omega (arith, range, length-append q.committed past)) h.consistent;
        stored = Step-IsStored step h.stored;
        past_in_order = h.past_in_order;
      }
  Life-Holds (restarted {p} {past} {s} disk life left opened) range =
      let h = Life-Holds life range in
      let c = h.consistent in
      record {
        forkchoice = forkchoice_of genesis_hash;
        consistent =
            started-IsConsistent p.finalizer.durable p.calls s (length (p.committed ++ past))
              (new-IsCoherent d prefix p.syncer s disk c.coherent left opened)
              (h.stored ∙ omega (arith, c.at_height, length-append p.committed past));
        stored = unfold new in refl;
        past_in_order = Descends-append p.committed past c.in_order h.past_in_order;
      }

  -- What a node has committed in its whole life, newest first.
  abbrev pub all_committed : Pipeline e → List (Block e.prim) → List (Block e.prim)
  all_committed p past = p.committed ++ past

  -- Let a node start over coherent archives and no stored height, take any steps, and be stopped and
  -- started again any number of times, over storage that may have lost items of the archives but
  -- holds no others. While the heights fit a u64, the blocks whose height it has stored in its whole
  -- life have the heights 1, 2, 3 and so on, each exactly once and in order; the finalizer's height
  -- is their number, and so is the height that a restart would read; and the archives are coherent.
  pub Life-in_order :
      {p : Pipeline e} {past : List (Block e.prim)}
      → Life d prefix genesis_hash p past
      → length (all_committed p past) < 2 ^ 64
      → Descends e 0 (all_committed p past)
        × (p.finalizer.last_indexed ≡ length (all_committed p past))
        × (unwrap_or p.finalizer.durable 0 ≡ length (all_committed p past))
        × IsCoherent e p.syncer
  Life-in_order {p} {past} life range =
      let h = Life-Holds life range in
      let c = h.consistent in
      let all : p.finalizer.last_indexed ≡ length (p.committed ++ past) =
        omega (arith, c.at_height, length-append p.committed past) in
      (Descends-append p.committed past c.in_order h.past_in_order, all, h.stored ∙ all, c.coherent)
