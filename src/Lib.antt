-- ===== src/Lib.antt =====
-- A model of Summit, a consensus client that drives an Ethereum execution client: what it decides,
-- stores and sends, in the crates types/, syncer/ and application/, and how a node/ is put together,
-- with the theorems that make it correct.
--
-- The program. The consensus engine (commonware_consensus) asks the application to propose blocks and
-- to vote on them. The syncer keeps the blocks that the node has seen, with their certificates, and
-- fetches the missing ones from its peers. The finalizer takes finalized blocks from the syncer in
-- the order of their heights and commits them to the execution client; proposals wait for it. A node
-- reads its keys and the genesis file, sorts the committee, and starts the network and these actors.
--
-- The files, by the paths they model.
--   Types/Block.antt: types/src/block.rs, `Block`, its digest, its SSZ form and its wire form.
--   Types/Certified.antt: types/src/block.rs, `Notarized` and `Finalized`, over any certificate.
--   Types/Genesis.antt: types/src/genesis.rs, the validators of the genesis file.
--   Types/Primitives.antt: what blocks are made of and other crates write, with the laws it obeys.
--   Syncer/Key.antt: syncer/src/key.rs, `MultiIndex`.
--   Syncer/Messages.antt: syncer/src/ingress.rs and syncer/src/handler.rs.
--   Syncer/Archive.antt, Syncer/Environment.antt: the archives and the configuration of
--     syncer/src/actor.rs. The archives of commonware_storage are a record of operations with laws.
--   Syncer/State.antt, Syncer/Consensus.antt, Syncer/Orchestrate.antt, Syncer/Resolve.antt and
--     Syncer/Actor.antt: syncer/src/actor.rs, `Actor::run`: the state, the handlers of the mailbox,
--     of the orchestrator and of the resolver, and the loop.
--   Syncer/Opening.antt: syncer/src/actor.rs, `Actor::new`, with the partitions of the archives.
--   Syncer/Agreement.antt: what the consensus of the network promises to the syncers.
--   Syncer/Registry.antt: syncer/src/registry.rs. Syncer/Coordinator.antt: syncer/src/coordinator.rs.
--   Application/Notifier.antt, Application/Finalizer.antt: application/src/finalizer.rs.
--   Application/Verify.antt, Application/Proposal.antt, Application/Actor.antt:
--     application/src/actor.rs (`handle_verify`, `handle_proposal`, `Actor::run`),
--     application/src/ingress.rs and the attributes of application/src/engine_client.rs.
--   Application/EngineClient.antt: application/src/engine_client.rs over a provider of the Engine API.
--     Application/EngineClient/Turns.antt and Application/EngineClient/Leader.antt: the finalizer and
--     the proposal of application/src/actor.rs with the calls of that client that they make.
--   Application/Opening.antt: application/src/config.rs, and `Actor::new` of
--     application/src/actor.rs with what it opens.
--   Application/Supervisor.antt: application/src/supervisor.rs.
--   Pipeline.antt: the finalizer, cut at its requests of syncer/src/ingress.rs (`Orchestrator`), with
--     the turns of the syncer in between. Pipeline/Repair.antt: its rounds of `get` and `repair`.
--     Pipeline/Restart.antt: both over stops and restarts of the node, also between `commit_hash` and
--     the sync of the height. Pipeline/Agreed.antt: two nodes.
--   Node/Paths.antt: node/src/utils.rs. Node/Keys.antt: node/src/keys.rs. Node/Config.antt:
--     node/src/config.rs. Node/Committee.antt and Node/Startup.antt: node/src/args.rs and
--     `Genesis::load_from_file`. Node/Engine.antt: node/src/engine.rs, the
--     configurations of `Engine::new`. Node/Launch.antt: the actors that it builds from them, and
--     `Engine::run`. Node/Storage.antt: all partitions of a node.
--   Node/Testnet.antt, Node/Testnet/Network.antt: node/src/bin/testnet.rs. Node/Dkg.antt:
--     node/src/bin/dkg_testnet.rs.
--   Node/Hooks.antt: node/src/prom/hooks.rs. Node/Descriptions.antt and Node/Metrics.antt:
--     node/src/prom/server.rs and node/src/prom/recorder.rs.
--   Node/Host.antt: what a node finds on its machine, a record of operations with laws.
-- The other files below these hold theorems, each named for what it proves, and runs at concrete
-- inputs. Types/Sample.antt, Syncer/Archive/Sample.antt, Syncer/Environment/Sample.antt and
-- Node/Sample.antt give parameters that obey every law.
--
-- How the code is modelled. A handler is a function from the state to the new state and a list of
-- effects in order: calls of the resolver, the buffer and the execution client, and answers. A panic
-- is `none` in the syncer and the application, `panic` in a decoder, and `panicked` in the node, where
-- `failed` is an error that is passed on. What a component asks another one is an input of its turn,
-- so a run is a list of messages or answers, in any order that the channels and `select!` allow.
-- Integers are natural numbers: an addition on a u64 is taken modulo 2 ^ 64, on a u32 modulo 2 ^ 32
-- and on a u16 modulo 2 ^ 16. Loops are structural recursion, but for two: the rounds of the
-- finalizer's repair run on fuel, of which one more than the width of the gap is enough, and a number
-- is printed with at most one digit more than itself.
--
-- The storage. An archive is not synced after a `put`, so a node that stops may lose its last items:
-- a restart opens archives that hold nothing but what was put. The finalizer's height is synced at
-- each commit. The execution client is a state of its own behind a record of calls with the laws of
-- the Engine API, and a node can stop between a commit and the sync of its height.
--
-- Not modelled: the parsing of arguments (clap), and how the actors are spawned and waited for; the
-- HTTP transport to the execution client; the resolver's queue and its retries; logs; the counters of
-- the feature `prom` and the metrics server that it adds to `run_node`; what the execution clients of
-- node/src/bin/testnet.rs print; read errors of the storage, which abort the process. The genesis
-- file's parser, the codecs of keys, the file system and the start of an execution client are
-- parameters.
mod Prelude
pub mod Types
pub mod Syncer
pub mod Application
pub mod Pipeline
pub mod Node
