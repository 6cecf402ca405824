-- ===== src/Lib.antt =====
-- Gnosis, a BFT consensus with an optimistic path (two-chain HotStuff with several leaders per
-- height) and a pessimistic path (a fallback chain per node and a multi-valued agreement, sMVBA)
-- beside it. The model is of one node: a network of nodes is what the messages that it handles come
-- from, and nothing is assumed of them.
--
-- Parts and files:
-- Prelude: Boolean tests, lists, machine words with their wrap-around (u32, u64 and usize as a
--   release build computes them) and maps, as association lists.
-- Error: consensus/src/error.rs. An Outcome is ok, err, panic (unwrap, expect, an index out of
--   bounds) or out_of_fuel, which the program does not have.
-- Crypto: crypto/src/lib.rs. The functions of ed25519_dalek, SHA-512 and threshold_crypto are the
--   fields of a record that every definition takes; BatchIsSound says what the batch verification
--   is documented to do. Keys and digests are numbers. Crypto/Keys: keys in base64, Signature::new,
--   the signature service; Crypto/Roundtrip is about them.
-- Config: consensus/src/config.rs (Committee::stake, quorum_threshold, addresses).
--   Config/Stake and Config/Quorum are about sums of stakes and about quorums.
-- Messages: consensus/src/messages.rs. Messages/Digests has the bytes that each message hashes,
--   Messages/Build the constructors, Messages/Checks every `verify`. Messages/Quorums and
--   Agreement are about the check of QCs.
-- Aggregator: consensus/src/aggregator.rs (QCMaker, ProofMaker, SMVBARandomCoinMaker and the maps
--   of them). Aggregator/Quorums and Aggregator/Certificates are about the QCs made.
-- Leader: consensus/src/leader.rs. Leader/Window and Leader/Elected are about its two views of the
--   leaders of a height.
-- Core: consensus/src/core.rs, with what it calls of consensus/src/synchronizer.rs and
--   consensus/src/mempool.rs. Core/State is the node's state and the monad of its handlers: what a
--   handler wrote before an error stays written. Core/Round: heights and the state kept for each
--   (advance_height, process_qc, clean_smvba_state, epoch_init). Core/Chain: store, transmit and
--   commit. Core/Opt: the optimistic path (handle_opt_proposal, process_opt_block,
--   handle_opt_vote, opt_propose). Core/Fallback: the fallback chain. Core/Prepare: the choice of
--   the agreement's input and the fast commit (handle_par_prepare, invoke_smvba). Core/Spb, Coin,
--   Vote and Output: the agreement, from its provable broadcasts (handle_spb_proposal) over the
--   coin (handle_smvba_rs), prevotes and votes to the output (handle_smvba_halt,
--   process_par_out). Core/Loop: `run` over a list of events. Core/Epochs: `run_epoch`,
--   which handles one such list in each epoch; Core/Epochs/Fresh is about the start of an epoch.
-- Core/Preserve: rules for what every handler preserves; Core/Safety: what follows for an epoch.
-- Synchronizer: the task of consensus/src/synchronizer.rs, beside a store that others write to, as
--   a step relation. Synchronizer/Parents is about the parents it waits for.
-- Store: store/src/lib.rs. The task that owns the database, over the commands it receives, with the
--   obligations of NotifyRead. rocksdb is a parameter, a record with the law of a map. Store/Answers
--   is about the requests of NotifyRead, Store/Reads about what is read.
-- Mempool: mempool/src. Mempool/Payload: the payload maker of payload.rs (Runner::add, make and run)
--   and the payloads of messages.rs; a list of inputs stands for its channels. Mempool/Config and
--   Error: config.rs and error.rs. Mempool/State and Handlers: the core of core.rs, in a monad like
--   that of Core, with Mempool/Loop for `run` over a list of events. Its hash sets take their
--   capacity and order of iteration from parameters. Mempool/Synchronizer: the task of
--   synchronizer.rs. Mempool/System: core and task together, as a step relation. Mempool/Triple and
--   Handled: rules for what the handlers keep. Queues, Answers, Requests and Capacity are about the
--   core; Entries, Loopback, Pending and Asking about the system.
-- Network: NetSender of network/src/lib.rs, its workers and what each is handed; what the connections
--   do is a list of events. Network/Order is about it. Network/Receiver: NetReceiver, and the front
--   end of mempool/src/front.rs; Network/Delivered is about a connection, Network/Arrival about the
--   way from a sender to a receiver. bincode is a parameter.
-- Filter: consensus/src/filter.rs, between the core and the network. Filter/Order is about it.
-- Core/Timer: consensus/src/timer.rs, over tokio's Sleep; Core/Timer/Deadline is about it.
-- Core/Start and Mempool/Start: consensus/src/consensus.rs and mempool/src/mempool.rs, as far as they
--   look up addresses and make the cores.
-- Node: node/src. Node/Files: the files of config.rs, as bytes, over serde_json; Node/Files/Export is
--   about them. Node/Boot: Node::new of node.rs, with Node/Boot/Outcomes. Node/Deploy: the local
--   testbed of main.rs and the files of keys, with Node/Deploy/Testbed. Node/Client: the loop of
--   client.rs, for a number of ticks, with Node/Client/Invariant and Distinct.
-- Driver: the node with the mempool behind its driver (consensus/src/mempool.rs): Env.payload and
--   Env.status from Mempool/Loop, with other events between the requests, the blocks that the
--   consensus stores among them. Driver/Stored is about it.
-- Tests: examples at a toy committee.
--
-- Components meet through the state: the handlers call the aggregator and the leader elector on
-- their fields, send by `transmit` to lists of what was sent, and ask the mempool, whose answers
-- are functions of all that was asked (Env.payload, Env.status).
--
-- Fuel: the handlers call each other in a cycle (a vote that completes a QC proposes the next
-- block, and so on). The calls that close a cycle go through Core/Calls, to a depth that
-- `run` takes; the theorems about `run` hold at each depth. The loop of `commit` is bounded by
-- Env.chain_bound; Core/Safety/Walk is about a bound that is enough.
--
-- The store is a map in the models of the node and of the mempool (Store models the task that answers
-- waiters). Node::new of node/src/node.rs gives one store to both: in the model of the mempool it
-- holds payloads and blocks (Entry), the consensus writes a block at any time (block_stored), and what
-- waits for a digest is ready when anything is stored under it. What bincode makes of the bytes of a
-- block, read as a payload, is a parameter. The model of the consensus sees the blocks of the store
-- alone: that a block's parent has the digest of a payload, which cannot be read as a block, is left
-- out. In the system of the mempool the steps come in any order, and the events of the core are any
-- events, its own payloads among them.
--
-- Not modelled: the store's persistence, the channels that connect a node's tasks and their
-- capacities, the command line and the logger of main.rs and client.rs, the client's wait for the
-- nodes, formatting and serialization.
pub mod Prelude
pub mod Error
pub mod Crypto
pub mod Config
pub mod Messages
pub mod Aggregator
pub mod Leader
pub mod Core
pub mod Synchronizer
pub mod Store
pub mod Mempool
pub mod Network
pub mod Filter
pub mod Node
pub mod Driver
pub mod Tests
