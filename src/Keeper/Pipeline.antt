-- ===== src/Keeper/Pipeline.antt =====
-- `process_batch_pipeline` of bin/keeper/src/keeper/keeper.rs, run to its end. Batches that are
-- processed at the same time are not modelled.
pub mod Outcome
use Prim.Native.String.{String, ◌++◌ as str_append}
use vendor.Base.{
  ℕ, List, [], ◌∷◌, ◌++◌, map, Option, none, some, Bool, true, false, if◌then◌else◌, Result, ok,
  err, is_empty_list,
}
use vendor.Accumulator.Batch.{FlushTrigger, time_window, block_change, max_batch_size, manual}
use vendor.Accumulator.Processable.{ProcessableBatch, SettlementOrder}
use vendor.Chain.Listener.{ChainError}
use vendor.Chain.Steward.{StewardClient, Steward}
use vendor.Assets.{ExtractionResult, ExtractorError, extract_assets_for_batch}
use vendor.Onchain.{
  OrderType, buy, sell, PendingOrder, SettlementPayload, SettlementResult, OnchainSubmitter,
}
use vendor.Onchain.Settle.{settle_batch}
use vendor.Keeper.{UpdateMarketDataRequest, Vendor, Done}

-- `generate_correlation_id` of bin/keeper/src/accumulator/processable.rs
abbrev pub trigger_text : FlushTrigger → String
trigger_text (time_window age) = "time_window"
trigger_text (block_change old new) = "block_change"
trigger_text (max_batch_size size) = "max_batch_size"
trigger_text manual = "manual"

unfoldable pub generate_correlation_id : (ℕ → String) → ProcessableBatch → String
generate_correlation_id decimal p =
    str_append (trigger_text p.flush_trigger) (str_append ":keeper:" (decimal p.flushed_at))

-- The order to settle, with no limit of its own.
abbrev pub pending : OrderType → SettlementOrder → PendingOrder
pending order_type order = record {
  index_id = order.index_id;
  trader_address = order.trader_address;
  max_order_size = 0;
  order_type = order_type;
  vault_address = order.vault_address;
}

abbrev pub payload_of : String → ProcessableBatch → SettlementPayload
payload_of correlation_id p = record {
  index_ids = p.unique_index_ids;
  buy_orders = map (pending buy) p.settlement_buy_orders;
  sell_orders = map (pending sell) p.settlement_sell_orders;
  batch_id = correlation_id;
}

-- The keeper: the extractor, by its Steward client, is there or not.
pub record KeeperLoop (Wallet : Type 0) : Type 0 where
  pub submitter : OnchainSubmitter Wallet
  pub asset_extractor : Option StewardClient
  pub vendor_client : Vendor

-- What a batch leaves: the keeper's client, what was done outside, and the settlement if any.
pub record Processed (Wallet : Type 0) : Type 0 where
  pub keeper : KeeperLoop Wallet
  pub done : Done
  pub settlement : Option (Result SettlementResult String)

-- `describe` and `to_text` give the texts of errors.
module _ (describe : String → ℕ → String → String) (to_text : ChainError → String)
    (steward : Steward) where
  -- The extraction of the assets, `none` where there is no extractor or where it fails.
  pub extract :
      (now : ℕ) → List ℕ → Option StewardClient → Option ExtractionResult × Option StewardClient
  extract now ids none = (none, none)
  extract now ids (some client) =
      let (result, client') = extract_assets_for_batch describe to_text steward now 0 ids client in
      (elim result [ ok r ↦ some r | err e ↦ none ], some client')

module _ (decimal : ℕ → String) {Wallet : Type 0} where
  -- With assets: the request to the vendor and, once it has answered, the settlement.
  pub post_and_settle :
      (elapsed_ms : ℕ) → ProcessableBatch → List ℕ → KeeperLoop Wallet → Done → Processed Wallet
  post_and_settle elapsed_ms p asset_ids k d =
      let correlation_id = generate_correlation_id decimal p in
      let request : UpdateMarketDataRequest = record {
        assets = asset_ids;
        batch_id = correlation_id;
      } in
      let d' : Done = record d { posted = d.posted ++ request ∷ [] } in
      elim (k.vendor_client d.posted request) [
        | err e ↦ record { keeper = k; done = d'; settlement = none }
        | ok response ↦
            let (result, sent') =
              settle_batch decimal k.submitter elapsed_ms (payload_of correlation_id p) d.sent in
            record { keeper = k; done = record d' { sent = sent' }; settlement = some result }
      ]

module _ (decimal : ℕ → String) (describe : String → ℕ → String → String)
    (to_text : ChainError → String) (steward : Steward) {Wallet : Type 0} where
  pub process_batch_pipeline :
      (now elapsed_ms : ℕ) → ProcessableBatch → KeeperLoop Wallet → Done → Processed Wallet
  unfolding extract post_and_settle
  process_batch_pipeline now elapsed_ms p k d =
      let (extracted, client') =
        extract describe to_text steward now p.unique_index_ids k.asset_extractor in
      let k' : KeeperLoop Wallet = record k { asset_extractor = client' } in
      elim extracted [
        | none ↦ record { keeper = k'; done = d; settlement = none }
        | some result ↦
            if is_empty_list result.asset_ids
            then record { keeper = k'; done = d; settlement = none }
            else post_and_settle decimal elapsed_ms p result.asset_ids k' d
      ]
