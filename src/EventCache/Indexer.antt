-- ===== src/EventCache/Indexer.antt =====
-- The indexer of libs/common/src/event_cache/indexer.rs, which fills the cache from the chain. The
-- node is a parameter of each call; the addresses and the URL of the settings are taken to parse.
use Prim.Native.String.{String, ◌++◌ as str_append}
use vendor.Base.{
  ℕ, ◌+◌, List, [], ◌∷◌, Option, ltb, if◌then◌else◌, length, unwrap_or, Result, ok, err,
}
use vendor.EventCache.{CachedIndex, CachedPair, EventCache, add_indices, add_pairs}

pub data IndexerError : Type 0 where
  rpc_error : String → IndexerError
  web_socket_disconnect : IndexerError
  cache_write_failed : String → String → IndexerError
  parse_error : String → String → IndexerError
  config_error : String → IndexerError

-- A log of the chain with what alloy decodes from it, and what the cache adds to that.
pub record EventLog (D : Type 0) : Type 0 where
  pub decoded : Result D String
  pub block_number : Option ℕ
  pub transaction_hash : Option String

pub record IndexCreated : Type 0 where
  pub index_id : ℕ
  pub name : String
  pub symbol : String
  pub vault : String

pub record PairRegistered : Type 0 where
  pub pair_id : ℕ
  pub symbol : String
  pub base_asset : String
  pub quote_asset : String

pub record Node : Type 0 where
  pub get_block_number : Result ℕ String
  pub index_logs : ℕ → ℕ → Result (List (EventLog IndexCreated)) String
  pub pair_logs : ℕ → ℕ → Result (List (EventLog PairRegistered)) String

abbrev pub cached_index : (block_number : ℕ) (tx_hash : String) → IndexCreated → CachedIndex
cached_index block_number tx_hash d = record {
  index_id = d.index_id;
  name = d.name;
  symbol = d.symbol;
  vault_address = d.vault;
  block_number = block_number;
  tx_hash = tx_hash;
}

abbrev pub cached_pair : (block_number : ℕ) (tx_hash : String) → PairRegistered → CachedPair
cached_pair block_number tx_hash d = record {
  pair_id = d.pair_id;
  symbol = d.symbol;
  base_asset = d.base_asset;
  quote_asset = d.quote_asset;
  block_number = block_number;
  tx_hash = tx_hash;
}

module _ {D C : Type 0} (event_type : String) (cached : ℕ → String → D → C) where
  -- The loop over the logs: one that cannot be decoded ends it with an error.
  unfoldable pub parse_logs : List (EventLog D) → Result (List C) IndexerError
  parse_logs [] = ok []
  parse_logs (log ∷ logs) = elim log.decoded [
    | err e ↦ err (parse_error event_type e)
    | ok d ↦ elim (parse_logs logs) [
      | err e ↦ err e
      | ok rest ↦ ok (
          cached (unwrap_or log.block_number 0) (unwrap_or log.transaction_hash "unknown") d ∷ rest)
    ]
  ]

  -- The block number, the logs up to it, and what they hold.
  unfoldable pub sync_events :
      Result ℕ String
      → (ℕ → ℕ → Result (List (EventLog D)) String)
      → ℕ
      → Result (List C) IndexerError
  unfolding parse_logs
  sync_events current get_logs from_block = elim current [
    | err e ↦ err (rpc_error (str_append "Failed to get block number: " e))
    | ok current_block ↦ elim (get_logs from_block current_block) [
      | err e ↦ err (rpc_error (str_append "Failed to get logs: " e))
      | ok logs ↦ parse_logs logs
    ]
  ]

unfoldable pub sync_index_created_events : Node → ℕ → Result (List CachedIndex) IndexerError
unfolding sync_events
sync_index_created_events node =
    sync_events "IndexCreated" cached_index node.get_block_number node.index_logs

unfoldable pub sync_pair_registry_events : Node → ℕ → Result (List CachedPair) IndexerError
unfolding sync_events
sync_pair_registry_events node =
    sync_events "PairRegistered" cached_pair node.get_block_number node.pair_logs

pub record SyncResult : Type 0 where
  pub indices_added : ℕ
  pub pairs_added : ℕ
  pub last_index_block : ℕ
  pub last_pair_block : ℕ

abbrev pub next_block : (last start_block : ℕ) → ℕ
next_block last start_block = if ltb 0 last then last + 1 else start_block

-- The pairs, after the indices have been added.
unfoldable pub sync_pairs : Node → ℕ → ℕ → EventCache → Result SyncResult IndexerError × EventCache
unfolding add_pairs
sync_pairs node pair_start_block indices_added c =
    elim (sync_pair_registry_events node pair_start_block) [
      | err e ↦ (err e, c)
      | ok new_pairs ↦
          let c' = add_pairs new_pairs c in
          (
            ok (record {
              indices_added = indices_added;
              pairs_added = length new_pairs;
              last_index_block = c'.last_synced_block_indices;
              last_pair_block = c'.last_synced_block_pairs;
            }),
            c',
          )
    ]

unfoldable pub full_sync : Node → ℕ → EventCache → Result SyncResult IndexerError × EventCache
unfolding sync_pairs add_indices
full_sync node start_block c =
    let pair_start_block = next_block c.last_synced_block_pairs start_block in
    elim (sync_index_created_events node (next_block c.last_synced_block_indices start_block)) [
      | err e ↦ (err e, c)
      | ok new_indices ↦
          sync_pairs node pair_start_block (length new_indices) (add_indices new_indices c)
    ]
