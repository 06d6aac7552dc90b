-- ===== src/Node/Testnet/Network.antt =====
-- node/src/bin/testnet.rs, `main`: an execution client for each node, and the node on its port. The
-- execution clients are processes of another program, which alloy_node_bindings starts: a parameter.
pub mod Wired
use sahya_net.Prelude.{
  ℕ, zero, suc, ◌+◌, ◌%◌, ◌^◌, Bool, true, false, Option, none, some, List, [], ◌∷◌, ◌++◌, Bytes,
  if◌then◌else◌,
}
use sahya_net.Syncer.State.{◌>>=◌}
use sahya_net.Node.Host.{Host, Outcome}
use sahya_net.Node.Startup.{Flags, Started, run_node_with_runtime}
use sahya_net.Node.Testnet.{decimal, node_prefix, jwt_file, get_node_flags}

-- What is asked of an execution client.
pub record RethBuilder : Type 0 where
  pub instance_number : ℕ
  pub data_dir : Bytes
  pub jwt_secret : Bytes

-- `Reth` and `RethInstance` of alloy_node_bindings, over the state of the machine. `spawn` gives
-- `none` when it panics.
pub record Reth : Type 1 where
  pub World : Type 0
  pub RethInstance : Type 0
  pub spawn : RethBuilder → World → Option (RethInstance × World)
  -- `stdout` is given
  pub has_stdout : RethInstance → Bool
  pub auth_port : RethInstance → Option ℕ

-- `/data/reth_db`
abbrev data_folder : Bytes
data_folder = 47 ∷ 100 ∷ 97 ∷ 116 ∷ 97 ∷ 47 ∷ 114 ∷ 101 ∷ 116 ∷ 104 ∷ 95 ∷ 100 ∷ 98 ∷ []

-- `node`
abbrev node_label : Bytes
node_label = 110 ∷ 111 ∷ 100 ∷ 101 ∷ []

unfoldable pub reth_builder : ℕ → RethBuilder
reth_builder x = record {
  instance_number = (x + 1) % 2 ^ 16;
  data_dir = node_prefix ++ decimal x ++ data_folder;
  jwt_secret = jwt_file;
}

-- A node that was started as a task: the label of its context and its flags.
pub record Task : Type 0 where
  pub label : Bytes
  pub flags : Flags

-- What the task does.
unfoldable pub run_task : (h : Host) → Task → h.files.Store → Outcome (Started h)
run_task h task s = run_node_with_runtime h task.flags s

unfoldable pub start_engine : ℕ → ℕ → Task
start_engine x auth_port = record {
  label = node_label ++ decimal x;
  flags = record (get_node_flags x) { engine_port = auth_port };
}

pub record Args : Type 0 where
  pub nodes : ℕ
  pub only_reth : Bool

-- What runs behind the loop of `main`: the execution clients and the nodes.
pub record Running (r : Reth) : Type 0 where
  pub handles : List r.RethInstance
  pub consensus_handles : List Task

module _ (r : Reth) where
  -- The execution client of a node, with its port. `none` is a panic.
  unfoldable pub start_reth : ℕ → r.World → Option (r.RethInstance × ℕ × r.World)
  start_reth x w = r.spawn (reth_builder x) w >>= λ (reth, more).
      (if r.has_stdout reth
        then (r.auth_port reth >>= λ auth_port. some (reth, auth_port, more))
        else none)

  -- A turn of the loop, in front of those that follow.
  unfoldable pub push : Bool → ℕ → r.RethInstance → ℕ → Running r → Running r
  push only_reth x reth auth_port rest = record {
    handles = reth ∷ rest.handles;
    consensus_handles =
        if only_reth
        then rest.consensus_handles
        else start_engine x auth_port ∷ rest.consensus_handles;
  }

  -- The turns of the loop that are left, the next of which is for node `x`.
  unfoldable pub start_nodes : Bool → ℕ → ℕ → r.World → Option (Running r)
  start_nodes only_reth zero x w = some (record { handles = []; consensus_handles = [] })
  start_nodes only_reth (suc left) x w = start_reth x w >>= λ (reth, auth_port, more).
      (start_nodes only_reth left (suc x) more >>= λ rest.
      some (push only_reth x reth auth_port rest))

  -- `main`, to where it waits for the nodes.
  unfoldable pub main : Args → r.World → Option (Running r)
  main args w = start_nodes args.only_reth args.nodes 0 w
