-- ===== src/Node/Testnet/Network/Wired.antt =====
-- The network that `main` starts, if the execution clients start.
use sahya_net.Prelude.{
  ◌*◌, ℕ, zero, suc, ◌+◌, ◌≤◌, ◌≡◌, ◌≢◌, Bool, true, false, some, List, [], ◌∷◌, All, length,
}
use sahya_net.Node.Testnet.Separate.{AreSeparate}
use sahya_net.Node.Testnet.Network.{RethBuilder, Reth, Task, start_engine, Running, start_nodes}

-- The port for the engine that Reth documents for an instance.
abbrev pub auth_port_of : ℕ → ℕ
auth_port_of n = 8451 + n * 100

-- Up to 200 execution clients run beside each other, each with the port of its instance.
pub record RethLaws (r : Reth) : Type 0 where
  pub spawns :
      (b : RethBuilder) (w : r.World)
      → 1 ≤ b.instance_number
      → b.instance_number ≤ 200
      → (i : r.RethInstance) × (w' : r.World) × (r.spawn b w ≡ some (i, w'))
        × (r.has_stdout i ≡ true)
        × (r.auth_port i ≡ some (auth_port_of b.instance_number))

-- What two nodes must not share, the ports of the execution clients included.
pub record AreApart (t t' : Task) : Type 0 where
  pub separate : AreSeparate t.flags t'.flags
  pub db_prefix : t.flags.db_prefix ≢ t'.flags.db_prefix
  pub engine_port : t.flags.engine_port ≢ t'.flags.engine_port
  pub engine_off_port : t.flags.engine_port ≢ t'.flags.port
  pub engine_off_prom_port : t.flags.engine_port ≢ t'.flags.prom_port
  pub port_off_engine : t.flags.port ≢ t'.flags.engine_port
  pub prom_port_off_engine : t.flags.prom_port ≢ t'.flags.engine_port

-- Each of the nodes that are started is apart from those behind it.
abbrev pub AllApart : List Task → Type 0
AllApart [] = Unit
AllApart (t ∷ rest) = All (AreApart t) rest × AllApart rest

-- Each node uses the port of its own execution client.
abbrev pub Wired : (r : Reth) → List r.RethInstance → List Task → Type 0
Wired r [] [] = Unit
Wired r [] (t ∷ tasks) = ⊥
Wired r (i ∷ handles) [] = ⊥
Wired r (i ∷ handles) (t ∷ tasks) =
    (r.auth_port i ≡ some t.flags.engine_port) × Wired r handles tasks

-- With `only_reth` no node is started.
abbrev pub IsNetwork : (r : Reth) → Bool → Running r → Type 0
IsNetwork r true n = n.consensus_handles ≡ []
IsNetwork r false n = Wired r n.handles n.consensus_handles × AllApart n.consensus_handles

module _ (r : Reth) (laws : RethLaws r) where
  -- The nodes from the node `x` on.
  engines : ℕ → ℕ → List Task
  engines zero x = []
  engines (suc left) x = start_engine x (auth_port_of (x + 1)) ∷ engines left (suc x)

  -- What the turns of the loop that are left leave behind.
  record Leaves (only_reth : Bool) (left x : ℕ) (w : r.World) : Type 0 where
    pub running : Running r
    pub returns : start_nodes r only_reth left x w ≡ some running
    pub count : length running.handles ≡ left
    pub none_started : only_reth ≡ true → running.consensus_handles ≡ []
    pub started : only_reth ≡ false → running.consensus_handles ≡ engines left x
    pub wired : only_reth ≡ false → Wired r running.handles running.consensus_handles
