-- ===== src/OnchainSync.antt =====
-- libs/onchain-sync: the discovery of ITPs (index token products) from the Castle contract. This file
-- is types.rs, the contract as a parameter, and the decoder of labels. An address is a number, and
-- what is printed of one is a text.
pub mod Itps
pub mod Events
mod Tests
use Prim.Native.String.{String}
use vendor.Base.{
  ℕ, ◌+◌, ◌/◌, List, [], ◌∷◌, Option, none, some, if◌then◌else◌, length, Result, ok, err,
  is_empty_list,
}
use vendor.EventCache.Indexer.{EventLog}
use vendor.Chain.Steward.{chunk_loop}

pub data ItpStatus : Type 0 where
  active : ItpStatus
  paused : ItpStatus

pub record CompositionSnapshot : Type 0 where
  pub index_id : ℕ
  pub asset_ids : List ℕ
  pub weights : List ℕ

pub record ItpInfo : Type 0 where
  pub index_id : ℕ
  pub vault_address : ℕ
  pub asset_count : ℕ
  pub composition : Option CompositionSnapshot
  pub status : ItpStatus
  pub collateral_address : Option ℕ
  pub creation_block : Option ℕ

pub record RebalanceEvent : Type 0 where
  pub index_id : ℕ
  pub block_number : Option ℕ
  pub tx_hash : Option String
  pub sender : Option String

-- An error with what its text is made of.
pub data SyncError : Type 0 where
  fetch_failed : String → String → SyncError
  call_failed : String → ℕ → String → SyncError
  no_vault : ℕ → SyncError

-- An event of which only the index and the sender are read.
pub record IndexEvent : Type 0 where
  pub index_id : ℕ
  pub sender : String

-- The node: the calls of the contract, and its logs from a block on.
pub record Castle : Type 0 where
  pub get_block_number : Result ℕ String
  pub get_vault : ℕ → Result ℕ String
  pub get_index_assets_count : ℕ → Result ℕ String
  pub get_index_assets : ℕ → Result (List ℕ) String
  pub get_index_weights : ℕ → Result (List ℕ) String
  pub get_vendor_assets : ℕ → Result (List ℕ) String
  pub index_created : ℕ → Result (List (EventLog ℕ)) String
  pub index_weights_updated : ℕ → Result (List (EventLog IndexEvent)) String
  pub index_quote_updated : ℕ → Result (List (EventLog IndexEvent)) String

-- The loop over the chunks is written as in the Steward client.
unfoldable pub decode_labels : List ℕ → Result (List ℕ) SyncError
unfolding chunk_loop
decode_labels bytes =
    if is_empty_list bytes then ok [] else ok (chunk_loop ((length bytes + 15) / 16) bytes)
