-- ===== src/Onchain/Submit.antt =====
-- The older submission in bin/keeper/src/onchain/submitter.rs, which is marked deprecated.
use Prim.Native.String.{String, ◌++◌ as str_append}
use vendor.Base.{
  ℕ, List, [], ◌∷◌, map, Option, none, some, leb, nat_beq, if◌then◌else◌, length, Result, ok, err,
  is_empty_list, Outcome, returns, ◌>>=◌, unwrap,
}
use vendor.Uint256.{Uint256}
use vendor.Amount.{checked_add}
use vendor.Codec.{to_vec}
use vendor.Processor.{
  AssetMarketData, MarketDataSnapshot, IndexBuyOrder, SubmissionPayload, net_collateral_change,
}
use vendor.Onchain.{
  TxReceipt, Sent, OnchainSubmitter, SubmitterConfig, Provider, Call, submit_market_data_call,
  submit_buy_order_call, send_transaction_with_retry,
}
use vendor.Onchain.Settle.{to_castle}

pub record SubmissionSummary : Type 0 where
  pub market_data_assets : ℕ
  pub buy_orders_count : ℕ
  pub total_collateral : ℕ

pub data SubmissionResult : Type 0 where
  success : Option TxReceipt → List (ℕ × TxReceipt) → SubmissionResult
  dry_run : SubmissionSummary → SubmissionResult
  failed : String → SubmissionResult

-- `sort_by_key(|a| a.asset_id)`, which keeps the order of equal keys.
unfoldable pub insert_by_id : AssetMarketData → List AssetMarketData → List AssetMarketData
insert_by_id a [] = a ∷ []
insert_by_id a (b ∷ bs) = if leb a.asset_id b.asset_id then a ∷ b ∷ bs else b ∷ insert_by_id a bs

unfoldable pub sort_by_id : List AssetMarketData → List AssetMarketData
unfolding insert_by_id
sort_by_id [] = []
sort_by_id (a ∷ rest) = insert_by_id a (sort_by_id rest)

unfoldable pub market_data_call : SubmitterConfig → MarketDataSnapshot → Call
unfolding sort_by_id
market_data_call config market_data =
    let assets = sort_by_id (map (λ (e : ℕ × AssetMarketData). e.1) market_data.assets) in
    submit_market_data_call config.vendor_id (to_vec (map (λ a. a.asset_id) assets))
      (to_vec (map (λ a. a.liquidity) assets)) (to_vec (map (λ a. a.price) assets))
      (to_vec (map (λ a. a.slope) assets))

unfoldable pub submit_market_data :
    Provider → SubmitterConfig → SubmissionPayload → Sent → Result TxReceipt String × Sent
submit_market_data provider config payload sent =
    send_transaction_with_retry provider config
      (to_castle config (market_data_call config payload.market_data)) sent

-- `find(|o| o.index_id == index_id)`
unfoldable pub find_order : ℕ → List IndexBuyOrder → Option IndexBuyOrder
find_order index_id [] = none
find_order index_id (o ∷ os) =
    if nat_beq o.index_id index_id then some o else find_order index_id os

module _ (decimal : ℕ → String) where
  -- The trader is always the zero address.
  unfoldable pub submit_buy_order :
      Provider → SubmitterConfig → SubmissionPayload → ℕ → Sent → Result TxReceipt String × Sent
  unfolding find_order
  submit_buy_order provider config payload index_id sent =
      elim (find_order index_id payload.buy_orders) [
        | none ↦ (err (str_append "Buy order not found for index " (decimal index_id)), sent)
        | some o ↦
            send_transaction_with_retry provider config
              (to_castle config (
                submit_buy_order_call config.vendor_id index_id 0 o.collateral_added
                  o.collateral_removed))
              sent
      ]

  -- The loop over the buy orders: one that fails is only logged.
  unfoldable pub submit_buy_orders :
      Provider
      → SubmitterConfig
      → SubmissionPayload
      → List IndexBuyOrder
      → Sent
      → List (ℕ × TxReceipt) × Sent
  unfolding submit_buy_order
  submit_buy_orders provider config payload [] sent = ([], sent)
  submit_buy_orders provider config payload (o ∷ os) sent =
      let (result, sent') = submit_buy_order provider config payload o.index_id sent in
      let (receipts, sent'') = submit_buy_orders provider config payload os sent' in
      (elim result [ ok receipt ↦ (o.index_id, receipt) ∷ receipts | err e ↦ receipts ], sent'')

  -- With the market data in or not needed.
  unfoldable pub after_market_data :
      Provider
      → SubmitterConfig
      → SubmissionPayload
      → Option TxReceipt
      → Sent
      → SubmissionResult × Sent
  unfolding submit_buy_orders
  after_market_data provider config payload market_data_tx sent =
      let (receipts, sent') = submit_buy_orders provider config payload payload.buy_orders sent in
      (success market_data_tx receipts, sent')

  unfoldable pub submit_live :
      Provider → SubmitterConfig → SubmissionPayload → Sent → SubmissionResult × Sent
  unfolding submit_market_data after_market_data
  submit_live provider config payload sent =
      if is_empty_list payload.market_data.assets
      then after_market_data provider config payload none sent
      else (let (result, sent') = submit_market_data provider config payload sent in
          elim result [
            | ok receipt ↦ after_market_data provider config payload (some receipt) sent'
            | err e ↦ (failed (str_append "Market data submission failed: " e), sent')
          ])

  module _ ⦃u : Uint256⦄ where
    -- The loop of `dry_run_summary`.
    unfoldable pub total_loop : List IndexBuyOrder → ℕ → Outcome ℕ
    total_loop [] total = returns total
    total_loop (o ∷ os) total = do
      sum ← unwrap (checked_add total (net_collateral_change o))
      total_loop os sum

    unfoldable pub dry_run_summary : SubmissionPayload → Outcome SubmissionResult
    unfolding total_loop
    dry_run_summary payload = do
      total ← total_loop payload.buy_orders 0
      returns (
          dry_run (record {
            market_data_assets = length payload.market_data.assets;
            buy_orders_count = length payload.buy_orders;
            total_collateral = total;
          }))

    unfoldable pub submit_payload :
        {Wallet : Type 0}
        → OnchainSubmitter Wallet
        → SubmissionPayload
        → Sent
        → Outcome (Result SubmissionResult String × Sent)
    unfolding dry_run_summary submit_live
    submit_payload s payload sent =
        if s.config.dry_run
        then (dry_run_summary payload >>= λ summary. returns (ok summary, sent))
        else elim s.provider [
          | none ↦ returns (err "Provider not initialized", sent)
          | some provider ↦
              let (result, sent') = submit_live provider s.config payload sent in
              returns (ok result, sent')
        ]
