-- ===== src/Node/Testnet/Tests.antt =====
-- A machine on which every execution client starts, and a network of two nodes.
use sahya_net.Prelude.{ℕ, ◌+◌, ◌*◌, true, false, some}
use sahya_net.Node.Testnet.Network.{Reth, Args}

-- An execution client is its port; the machine counts them.
abbrev reth : Reth
reth = record {
  World = ℕ;
  RethInstance = ℕ;
  spawn = λ b w. some (8451 + b.instance_number * 100, w + 1);
  has_stdout = λ i. true;
  auth_port = λ i. some i;
}

abbrev two_nodes : Args
two_nodes = record { nodes = 2; only_reth = false }
