-- ===== src/Lib.antt =====
-- hash-router: a router that sells and buys hash rate. Miners connect to a node, the node divides
-- the hash power of each over mining pools by time, and contracts of a marketplace on a blockchain
-- say how much hash rate goes where.
--
-- The parts, from the ground up. A path is that of the repository.
-- - Miner/DestSplit.antt models miner/dest_split.go, the shares of one miner's time: `Allocate`,
--   `IncreaseAllocation`, `RemoveByID` and the other methods of `DestSplit` are `allocate`,
--   `increase_allocation`, `remove_by_id` and so on. A split is a list, the newest share first.
-- - Miner/Scheduler.antt models miner/on_demand_miner_scheduler.go: `Deallocate` with the array
--   that its range and its removals share. Miner/Scheduler/Cycle.antt is the loop of `Run`, which
--   goes round the shares, as a step function over what it waits for.
-- - Contracts/AllocSnap.antt models contractmanager/alloc_snap.go, a snapshot of who serves what,
--   indexed by miners and by contracts.
-- - Contracts/SubsetSum.antt models contractmanager/closest_subset_sum_rgli.go and bit_mask.go,
--   the randomised search for miners that together reach a hash rate. Contracts/Combinations.antt
--   models combinations.go, which runs it on a snapshot.
-- - Contracts/GlobalScheduler.antt, with Update.antt and Unallocated.antt below it, models
--   contractmanager/global_scheduler_service.go: serving a contract by a combination of miners,
--   adjusting the combination, taking the contract off, and the hash rate that is left.
-- - Contracts/Contract.antt models contractmanager/contract_model.go, one contract from its
--   purchase to its close-out. Contracts/Manager.antt models contract_manager_v2.go, which
--   contracts a node takes up.
-- - Protocol/PoolConn.antt models protocol/stratum_v1_pool_conn.go, the connection to one pool;
--   Protocol/ConnPool.antt models stratum_v1_pool_conn_pool.go, the connections of one miner, and
--   Protocol/MinerModel.antt models stratum_v1_miner_model.go, the miner between them.
--   Protocol/MinerConn.antt models stratum_v1_miner_conn.go and the handshake of a miner on the lines
--   that come and go, and Protocol/MinerModel/Relay.antt the goroutines that pass messages on.
-- - Protocol/Messages.antt models protocol/stratumv1_message/: Requests.antt the messages of a
--   miner, Notices.antt and Results.antt those of a pool, Dispatch.antt `ParseMessageToPool` and
--   `ParseMessageFromPool`. Json.antt writes out what encoding/json does for the types of the
--   messages; the text of a value is printed and parsed by a parameter, the record `Codec`, whose
--   documented round trip is `IsCodec`.
-- - Blockchain/Gateway.antt, Blockchain/Closeout.antt and Blockchain/Subscription.antt model
--   blockchain/ethereum_gateway.go: reading contracts, closing one out, the turns of the callers as
--   a step relation, and the goroutine that renews a subscription as a step function over what it
--   waits for. Blockchain/Retry.antt models lib/retry.go.
-- - Server/PeekJson.antt, Server/Connection.antt and Server/Api.antt model tcpserver/peek_json.go,
--   miner/miner_controller.go with data/generic_collection.go, and api/controller.go.
-- - Hashrate.antt models hashrate/ema.go and hashrate.go, and Hashrate/Merkle.antt hashrate/utils.go,
--   the Merkle root, whose loop has as much fuel as its array has slots; Stores/Repository.antt and
--   Stores/EventBus.antt model data/inMemoryRepository.go and eventbus/event-bus.go, and
--   Library.antt lib/endian.go and lib/error.go.
-- The controller makes a scheduler of a connection; messages come from the miner and the pool by the
-- parsers; the contract manager reads the gateway. The contract calls the scheduler, the scheduler changes the miners of a collection, and a miner
-- changes its split: in the model each takes the state below it and returns the new one.
--
-- How the code is modelled.
-- - Numbers: Go's `int` is ℤ of Common/Int.antt without a bound; hash rates, their sums and times
--   in nanoseconds stay far below 2^63. `float64` is a parameter of every definition that uses it,
--   the record `Float64` of Float.antt. The definitions and most theorems hold for the arithmetic
--   of the machine. Lemmas on sums without rounding, which those of the machine are not, have the
--   hypothesis `IsExact`, and what needs an order `IsOrdered`; Float/Hundredths.antt meets both.
-- - A destination, a wallet and an address are texts. A map, and a collection on `sync.Map`, is an
--   association list, and its order is the order in which `range` visits it: theorems hold for
--   each.
-- - Random numbers and sorting of strings are parameters: `shuffle k` is the k-th shuffle, of
--   which the theorems assume at most that it permutes. The clock is an argument.
-- - The methods of one object run one at a time, as its mutex has it, and so do the methods of the
--   scheduler. `run` of a pool connection goes on beside its other methods: what it does on a
--   message is a step, and sending a request is a step before its registration. A panic is `none`
--   or `panic`, and waiting for a channel ends a step.
-- - Loops go over a list, or over as many rounds as the code makes: an index loop of n rounds has
--   the number n, and the search has its 50 trials. No definition runs out of fuel.
--
-- - A part that a library answers is a record of its answers: `Chain` for the client, the contracts
--   and the keys, `Codec` for JSON text; math.Exp, the time format and strings.Contains are
--   parameters. An int64 that comes from elsewhere or is multiplied by a count is wrapped
--   explicitly (`wrap_int64`), and so is a uint64.
--
-- Not modelled: sockets, the router of gin and the HTTP server, the older subset search (no
-- caller), the wallet, configuration, dependency injection, logging and the generated contract
-- bindings. Examples.antt has tests and concrete
-- instances of the theorems.
pub mod Common
pub mod Float
pub mod Miner
pub mod Contracts
pub mod Protocol
pub mod Blockchain
pub mod Server
pub mod Stores
pub mod Hashrate
pub mod Library
pub mod Examples
