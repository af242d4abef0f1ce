-- ===== src/Lib.antt =====
-- A verification library of the parachain template for NFTs: a pallet, the runtime that composes it
-- with the Polkadot SDK, and the node that runs the runtime as a collator.
--
-- The parts, and the files that model them:
--
-- - Pallet: the template pallet of pallets/template/src. Pallet.antt has the storage item
--   (`Something`, with the events beside it), the events, the errors and the calls `do_something`
--   and `cause_error` of lib.rs, as functions from a storage to a result and a storage; what the
--   pallet takes of `frame_system` is the record `Config`. Pallet/Weights.antt has weights.rs and
--   the weights that the calls declare. Pallet/Calls.antt is about single calls,
--   Pallet/History.antt about sequences of calls, and Pallet/Counting.antt compares those with a
--   counter. Pallet/Benchmarking.antt has the benchmarks of benchmarking.rs, and Pallet/Mock.antt
--   the runtime of mock.rs with the unit tests of tests.rs.
-- - Runtime: runtime/src. Runtime/Units.antt has the constants of lib.rs and those that
--   configs/mod.rs computes from them; Runtime/Weights.antt the files of weights/;
--   Runtime/Fees.antt `WeightToFee`; Runtime/Extrinsics.antt `TxExtension`; Runtime/Pallets.antt
--   the pallets in lib.rs. Of configs/mod.rs, Runtime/BlockWeights.antt has
--   `RuntimeBlockWeights`, with its children Limits for each class and Queues for messages;
--   Runtime/Governance.antt has `CollatorSelectionUpdateOrigin`, and Runtime/Configs.antt, with
--   its child Collating, the `Config` implementations; Runtime/BlockLength.antt has
--   `RuntimeBlockLength`. Runtime/Xcm.antt and its children have configs/xcm_config.rs: Matcher
--   and Filters the NFT matcher and the filters of locations, Barrier the barrier, Accounts
--   `LocationToAccountId`, Origins `XcmOriginToTransactDispatchOrigin`, LocalOrigins the way
--   back, Assets the transactor and the reserves, Reserves the reserves that are prepared for
--   NFTs, Router `XcmRouter`, Fees the weigher and the trader, and Executor `XcmConfig`, which
--   puts them together. Runtime/Transact.antt has the
--   template pallet's `Config` in the runtime, with calls of it that other chains make; its
--   children Paid and History compare them with the barrier and follow sequences of them, its child
--   Inside says as whom a message acts from inside a location, and
--   Runtime/Capacity.antt compares the weights of the calls with the limits of a block, as
--   Runtime/FullBlock.antt does for any normal extrinsics and the unadjusted fees that the API
--   answers for them, and
--   Runtime/Privileges.antt is about the calls that are kept for root and for the collators' admin.
--   Runtime/Queues.antt has the queues of messages from other chains in configs/mod.rs;
--   Runtime/Chain.antt joins them with the executor's configuration and the template pallet to a
--   step relation on the state of one chain: extrinsics, calls nested in other calls (as in a
--   `sudo_as`), messages that are queued, served, set aside as overweight, executed on demand and
--   reaped. Its children are about all histories of it: Order and Arrivals about the queues,
--   Announced, Causes and Safety about the events, Overweight about the messages that are set aside,
--   Progress about the queue of the relay chain.
--   Runtime/Network.antt puts several parachains that run this runtime into one
--   network, joined by `XcmRouter` and the queues; its child Views cuts a history of the network
--   down to one chain, Senders finds who sent a message, and Accounts is about the messages
--   that signed accounts send.
--   Runtime/Genesis.antt and its children have genesis_config_presets.rs. Runtime/Apis.antt and
--   its children have apis.rs, and Runtime/Benchmarks.antt, with its child SetCode, benchmarks.rs with the
--   API that runs the benchmarks.
-- - Node: node/src. Node/ChainSpec.antt has chain_spec.rs and `load_spec` of command.rs;
--   Node/Cli.antt cli.rs and the answers of `RelayChainCli` in command.rs, with its children
--   Configuration and About the traits of both command lines; Node/Command.antt `run` of
--   command.rs; Node/Rpc.antt rpc.rs; Node/Service.antt service.rs. Node/Effects.antt is the log
--   of what the node does, and Node/Plans.antt the plans against which Node/Service/Plan.antt and
--   Node/Service/Startup.antt compare a start; Node/Service/Collating.antt and
--   Node/Service/Liveness.antt say what follows from that, and Node/Service/Timing.antt compares
--   the consensus task with the times of the runtime. Node/Invariants.antt has the rules for what
--   all effects of a run have, and Node/Command/BuiltIn.antt uses them from `load_spec` to the
--   consensus task.
-- - Sdk: what the code takes of the SDK, as records of operations with the laws that the SDK
--   documents (weights and per-billion fractions, the keyring, names), and the XCM types with the
--   constructors that the code matches on. Base has the helpers that all parts share.
--
-- The parts meet where the code does: a chain specification of the node names a preset of the
-- runtime and announces its parachain id, the relay chain command line reads the specification, a
-- message that the barrier lets in is dispatched as an origin that the template pallet's calls
-- read, a message that one chain routes to a sibling is queued there under that chain's id, the
-- barrier uses the runtime's filter, the NFT matcher names an index of the table of pallets, and
-- the fees and the block limits are taken from the weights.
--
-- Numbers are natural numbers. Where the source has a machine integer, its bound is written out:
-- the largest block number is a field of `Config`, and `checked_add` fails above it; `as u32` is a
-- remainder by 2 ^ 32; `saturating_mul` stops at the largest u64. No function needs fuel: every
-- loop of the source is one over a list. A history of a chain or of the network is a list of inputs
-- of any length, in any order.
--
-- The adapters of the SDK that the XCM configuration is put together from are fields of records
-- (`AccountsApi`, `OriginsApi`, `LocalOriginsApi`, `ChecksApi`, `AssetsApi`, `RouterApi`,
-- `BarrierApi`, `TradeApi`, `SignedApi`, `QueuesApi`, `ExecutorApi`, `SendApi`) whose laws say what their documentation says, each on its
-- own; how the code composes them is modelled. In the same way `BlockWeightsApi`, `BlockLengthApi`,
-- `PaymentApi` and `ExtensionsApi` stand for the limits of a block, the payment pallet and the
-- extensions of extrinsics, `MockOrigins` for the origins of the mock runtime, `BenchmarkSdk` for
-- the macros that run the benchmarks of one pallet, and `RuntimeSdk` and `GenesisSdk` for what the
-- pallets answer.
--
-- Not modelled: the objects of the SDK that the node passes from call to call, since no decision of
-- the code depends on them; a call that can fail takes its result from the records `Host` and
-- `CommandHost`. Of configs/ the items that only name a type of the SDK, such as the session
-- handler and the fee multiplier, and of lib.rs the aliases of the SDK's types: what they do is not
-- in the repository. A history of a chain has no step in which root replaces the code or writes the
-- raw storage of the runtime, and when the message queue finds a message too heavy is the SDK's to
-- say. Parsing the command line is clap's. The JavaScript of scripts/, the build
-- scripts and the network descriptions are left out too.
pub mod Base
pub mod Sdk
pub mod Pallet
pub mod Runtime
pub mod Node
