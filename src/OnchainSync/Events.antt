-- ===== src/OnchainSync/Events.antt =====
-- The event scans of `OnChainSyncService` in libs/onchain-sync/src/lib.rs.
pub mod Staleness
use Prim.Native.String.{String}
use vendor.Base.{
  ℕ, ◌+◌, ◌-◌, List, [], ◌∷◌, ◌++◌, Option, none, some, Bool, true, false, if◌then◌else◌, ltb,
  Result, ok, err, nat_beq, unwrap_or,
}
use vendor.EventCache.Indexer.{EventLog}
use vendor.OnchainSync.{RebalanceEvent, IndexEvent, Castle, SyncError, fetch_failed}

-- The body of the loop over the logs: only those of the index are kept.
unfoldable pub push_rebalance :
    (index_id : ℕ) → EventLog IndexEvent → List RebalanceEvent → List RebalanceEvent
push_rebalance index_id log events = elim log.decoded [
  | err e ↦ events
  | ok event ↦
      if nat_beq event.index_id index_id
      then events
        ++ record {
          index_id = event.index_id;
          block_number = log.block_number;
          tx_hash = log.transaction_hash;
          sender = some event.sender;
        }
          ∷ []
      else events
]

unfoldable pub rebalance_loop :
    (index_id : ℕ) → List (EventLog IndexEvent) → List RebalanceEvent → List RebalanceEvent
unfolding push_rebalance
rebalance_loop index_id [] events = events
rebalance_loop index_id (log ∷ logs) events =
    rebalance_loop index_id logs (push_rebalance index_id log events)

unfoldable pub get_rebalance_history :
    Castle → (index_id : ℕ) → (from_block : Option ℕ) → Result (List RebalanceEvent) SyncError
unfolding rebalance_loop
get_rebalance_history castle index_id from_block =
    elim (castle.index_weights_updated (unwrap_or from_block 0)) [
      | err e ↦ err (fetch_failed "rebalance" e)
      | ok logs ↦ ok (rebalance_loop index_id logs [])
    ]

-- `latest_block.map_or(block, |b| b.max(block))`
abbrev pub later : Option ℕ → ℕ → ℕ
later none block = block
later (some b) block = if ltb b block then block else b

abbrev pub later_of : Option ℕ → Option ℕ → Option ℕ
later_of latest none = latest
later_of latest (some block) = some (later latest block)

unfoldable pub latest_update : (index_id : ℕ) → EventLog IndexEvent → Option ℕ → Option ℕ
latest_update index_id log latest = elim log.decoded [
  | err e ↦ latest
  | ok event ↦ if nat_beq event.index_id index_id then later_of latest log.block_number else latest
]

unfoldable pub latest_loop : (index_id : ℕ) → List (EventLog IndexEvent) → Option ℕ → Option ℕ
unfolding latest_update
latest_loop index_id [] latest = latest
latest_loop index_id (log ∷ logs) latest =
    latest_loop index_id logs (latest_update index_id log latest)

unfoldable pub get_quote_last_updated :
    Castle → (index_id lookback_blocks : ℕ) → Result (Option ℕ) SyncError
unfolding latest_loop
get_quote_last_updated castle index_id lookback_blocks = elim castle.get_block_number [
  | err e ↦ err (fetch_failed "block number" e)
  | ok current_block ↦ elim (castle.index_quote_updated (current_block - lookback_blocks)) [
    | err e ↦ err (fetch_failed "IndexQuoteUpdated" e)
    | ok logs ↦ ok (latest_loop index_id logs none)
  ]
]

-- No update is as old as can be; the age saturates at 0.
unfoldable pub is_older : (max_blocks_age current_block : ℕ) → Option ℕ → Bool
is_older max_blocks_age current_block none = true
is_older max_blocks_age current_block (some update_block) =
    ltb max_blocks_age (current_block - update_block)

-- The block number is read once more after the scan, from `castle'`, as the chain may have grown.
unfoldable pub is_quote_stale :
    (castle castle' : Castle) (index_id max_blocks_age : ℕ) → Result Bool SyncError
unfolding get_quote_last_updated is_older
is_quote_stale castle castle' index_id max_blocks_age =
    elim (get_quote_last_updated castle index_id 1000) [
      | err e ↦ err e
      | ok last_update ↦ elim castle'.get_block_number [
        | err e ↦ err (fetch_failed "block number" e)
        | ok current_block ↦ ok (is_older max_blocks_age current_block last_update)
      ]
    ]
