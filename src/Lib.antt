-- ===== src/Lib.antt =====
-- The keeper and vendor processes of an index market maker. The keeper (bin/keeper) receives the
-- deposits and withdrawals of index traders, collects them in a batch per block or time window and
-- hands the batch on; the vendor (bin/vendor) buys and sells the underlying assets, through an
-- order buffer and a rate-limited exchange client, and keeps the supply that it reports on chain.
-- Both compute with the amounts of libs/common.
--
-- Files, with the code they model:
--   Base: lists, maps as association lists, integers, outcomes of calls that may panic.
--   Uint256: the interface of alloy's U256, with the laws that its documentation states and a
--     reference implementation. Every model of code that uses U256 takes it as a parameter.
--   Amount: libs/common/src/amount.rs. `Amount` is the number it wraps, and `IsAmount` that the
--     number fits `u128`. `Option` is a checked failure, `panics` a division by zero or an
--     `unwrap` of `None`. The square root loop runs on fuel n + 1.
--   Codec: libs/common/src/uint.rs and the bytes of libs/common/src/vector.rs.
--   Buffer: bin/vendor/src/buffer. Buffer/Order is types.rs, Buffer/Queue is `OrderBuffer` of
--     queue.rs, Buffer/MinSize is `MinSizeHandler` of min_size_handler.rs, Buffer/Withdrawals
--     `WithdrawalHandler` of withdrawals.rs, Buffer/Costs is `AcquisitionCostTracker` of
--     cost_tracker.rs. A method of the queue or the handler holds its lock throughout, so a history of calls is a list, whatever the threads that made them.
--   Supply: bin/vendor/src/supply. Supply/Asset is `AssetSupply`, Supply/State is `SupplyState`,
--     Supply/Manager is the delta search of `SupplyManager`, Supply/Manager/Assets the rest of it,
--     with the symbols that the asset mapper knows as a map. A method returns its result and the
--     state that it leaves, also where it fails half-way.
--   Sender/RateLimiter: bin/vendor/src/order_sender/rate_limiter.rs. Every clock reading is an
--     argument; that the clock does not run backwards and that a sleep is not shorter than asked
--     for are hypotheses.
--   Rebalancer/Delta: `DeltaCalculator` and `Delta` of bin/vendor/src/delta_rebalancer.
--   Accumulator: bin/keeper/src/accumulator. Accumulator/Batch is `IndexState` and `OrderBatch` of
--     types.rs, Accumulator/Flush is `OrderAccumulator` of accumulator.rs with its loop,
--     Accumulator/Processable is `ProcessableBatch::from_order_batch` of processable.rs.
--   Chain: bin/keeper/src/chain. Chain/Events and Chain/Parse are event_types.rs, Chain/Listener and
--     Chain/Websocket are `ChainEventListener` of event_listener.rs, Chain/Steward is `StewardClient`
--     of steward_client.rs. The node and the contract are parameters; each call may see another one.
--     What the channel of events holds is a list in the state.
--   Index, Assets: `IndexMapper` of bin/keeper/src/index/mapper.rs and `AssetExtractor` of
--     bin/keeper/src/assets/extractor.rs, which asks the Steward client for the assets of a batch.
--   Processor: bin/keeper/src/processor/types.rs.
--   EventCache: libs/common/src/event_cache. EventCache is types.rs, EventCache/Shared is
--     `SharedEventCache` of reader.rs, EventCache/Indexer is `EventIndexer` of indexer.rs,
--     EventCache/Watcher is `EventWatcher` of watcher.rs, whose state holds the cache and what its
--     file holds, EventCache/Files is `EventCacheManager` of manager.rs. The node, the JSON library
--     and what fails in the file system are parameters.
--   Onchain: bin/keeper/src/onchain. Onchain is types.rs and one transaction with its retries,
--     Onchain/Settle the settlement and Onchain/Submit the older submission of submitter.rs. The
--     state is the list of transactions handed to the provider, whose answer to each attempt may
--     depend on all before. The retry loop recurs on the attempts that are left.
--   Keeper: bin/keeper/src/keeper. Keeper/Pipeline is `process_batch_pipeline` of keeper.rs, which
--     takes a batch of Accumulator through Assets, the vendor's service and Onchain;
--     Keeper/Claims is claim_handler.rs, which acts on events of Chain. The vendor's service is a
--     parameter that may answer each request as it likes.
--   VendorClient: bin/keeper/src/vendor. VendorClient is types.rs, VendorClient/Requests is client.rs.
--     The server is a parameter whose answers may depend on all before. The loop over the attempts
--     recurs on the attempts that are left.
--   OnchainSync: libs/onchain-sync. OnchainSync is types.rs, OnchainSync/Itps the discovery of ITPs
--     and OnchainSync/Events the event scans of lib.rs; the contract is a parameter.
--   Pairs: bin/scripts/src/bin/list_bitget_pairs.rs. Pairs is the choice of pairs and their ids,
--     Pairs/Changes the comparison with the last run, Pairs/Fetch the requests and the run. How a
--     hash map is walked is a parameter here.
-- An operation that talks to the outside takes what was done so far and returns it extended. Texts
-- that hold numbers take the printing of a number as a parameter.
-- A hash map is an association list, in the order in which the map is iterated; its keys are kept
-- distinct. Counters of type usize do not reach their limit; those of u32 and u64 wrap.
--
-- Not modelled: HTTP, the protocols of web sockets and RPC, and files, of which only the answers
-- enter; logging; tasks that run at the same time; code that computes with floating-point
-- numbers; what macros generate.
pub mod Base
pub mod Uint256
pub mod Amount
pub mod Codec
pub mod Buffer
pub mod Supply
pub mod Sender
pub mod Rebalancer
pub mod Accumulator
pub mod Assets
pub mod Chain
pub mod EventCache
pub mod Index
pub mod Keeper
pub mod Onchain
pub mod OnchainSync
pub mod Pairs
pub mod Processor
pub mod VendorClient
