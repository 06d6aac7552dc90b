-- ===== src/Pipeline/Agreed.antt =====
-- Two nodes of one network commit the same blocks (syncer/src/actor.rs,
-- application/src/finalizer.rs): a life of a node in which only what can arrive does.
pub mod Final
pub mod Chains
pub mod Sample
mod Tests
use sahya_net.Prelude.{ℕ, ◌≡◌, none, some, List, [], ◌++◌}
use sahya_net.Types.Digest.{Digest}
use sahya_net.Types.Block.{Block}
use sahya_net.Syncer.Environment.{Environment}
use sahya_net.Syncer.Key.{MultiIndex}
use sahya_net.Syncer.State.{State}
use sahya_net.Syncer.Actor.{mailbox, handler}
use sahya_net.Syncer.Coherence.{IsCoherent}
use sahya_net.Syncer.Opening.{Storage, new}
use sahya_net.Syncer.Opening.Restart.{IsLeft}
use sahya_net.Syncer.Agreement.{Network, OnlyFinal, Arrives, IsSound, fetched}
use sahya_net.Pipeline.{
  Pipeline, Step, consensus, network, look, accept, persist, reject, report, mend, wake,
}
use sahya_net.Pipeline.Restart.{Life, born, stepped, restarted, started}
use Prim.Native.String.{String}

-- What reaches the syncer in a step is what can arrive, over a sound buffer.
abbrev pub IsProper : {e : Environment} {p q : Pipeline e} → List MultiIndex → Step e p q → Type 0
IsProper {e} keys (consensus buffer m hb t) = IsSound e buffer × Arrives keys (mailbox m)
IsProper {e} keys (network buffer m hb t) = IsSound e buffer × Arrives {e = e} keys (handler m)
IsProper {e} keys (look buffer o hb at t a) = IsSound e buffer
IsProper keys (accept b at) = Unit
IsProper keys (persist b at) = Unit
IsProper keys (reject b at) = Unit
IsProper {e} keys (report buffer height d hb at t) = IsSound e buffer
IsProper {e} keys (mend buffer b hb at t a) = IsSound e buffer
IsProper keys (wake w at) = Unit

-- The keys that the syncer has fetched after a step.
abbrev pub keys_after :
    {e : Environment} {p q : Pipeline e} → List MultiIndex → Step e p q → List MultiIndex
keys_after keys (consensus buffer m {s} {effects} hb t) = fetched effects ++ keys
keys_after keys (network buffer m {s} {effects} hb t) = fetched effects ++ keys
keys_after keys (look buffer o {s} {effects} hb at t a) = fetched effects ++ keys
keys_after keys (accept b at) = keys
keys_after keys (persist b at) = keys
keys_after keys (reject b at) = keys
keys_after keys (report buffer height d {s} {effects} hb at t) = fetched effects ++ keys
keys_after keys (mend buffer b {s} {effects} hb at t a) = fetched effects ++ keys
keys_after keys (wake w at) = keys

-- A life of a node of the network, with the blocks whose height it had stored before its last restart,
-- newest first, and the keys that it has fetched since. It begins with final blocks only, with none, say.
pub data Membership {e : Environment} (net : Network e) (d : Storage e) (prefix : String)
    (genesis_hash : Digest) : Pipeline e → List (Block e.prim) → List MultiIndex → Type 0 where
  joins :
      {s : State e}
      → IsCoherent e s
      → OnlyFinal net s
      → Membership net d prefix genesis_hash (started genesis_hash none [] s) [] []
  steps :
      {p q : Pipeline e} {past : List (Block e.prim)} {keys : List MultiIndex}
      → Membership net d prefix genesis_hash p past keys
      → (st : Step e p q) → IsProper keys st
      → Membership net d prefix genesis_hash q past (keys_after keys st)
  restarts :
      {p : Pipeline e} {past : List (Block e.prim)} {keys : List MultiIndex} {s : State e}
      (disk : d.Disk)
      → Membership net d prefix genesis_hash p past keys
      → IsLeft d prefix p.syncer disk
      → new d prefix disk ≡ some s
      → Membership net d prefix genesis_hash
          (started genesis_hash p.finalizer.durable p.calls s)
          (p.committed ++ past)
          []

-- It is a life of a node.
pub Membership-Life :
    {e : Environment} {net : Network e} {d : Storage e} {prefix : String} {genesis_hash : Digest}
    {p : Pipeline e} {past : List (Block e.prim)} {keys : List MultiIndex}
    → Membership net d prefix genesis_hash p past keys
    → Life d prefix genesis_hash p past
Membership-Life (joins coherent final) = born coherent
Membership-Life (steps m st proper) = stepped (Membership-Life m) st
Membership-Life (restarts disk m left opened) = restarted disk (Membership-Life m) left opened
