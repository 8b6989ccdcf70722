-- ===== src/Onchain/Settle.antt =====
-- The settlement of bin/keeper/src/onchain/submitter.rs: one transaction for the quotes, one for
-- each buy order and one for each sell order.
pub mod Sequence
pub mod Results
use Prim.Native.String.{String, ◌++◌ as str_append}
use vendor.Base.{
  ℕ, ◌+◌, List, [], ◌∷◌, Option, none, some, Bool, true, false, ltb, if◌then◌else◌, count, Result,
  ok, err, is_empty_list, is_ok, is_err,
}
use vendor.Onchain.{
  PendingOrder, SettlementPayload, TxReceipt, OrderResults, SettlementResult, Call,
  update_multiple_index_quotes_call, process_pending_buy_order_call,
  process_pending_sell_order_call, TransactionRequest, Sent, OnchainSubmitter, SubmitterConfig,
  send_transaction_with_retry, try_send_transaction, retry_loop,
}

abbrev pub dry_run_receipt : String → TxReceipt
dry_run_receipt tx_hash = record {
  tx_hash = tx_hash;
  block_number = 0;
  gas_used = 0;
  status = true;
}

abbrev pub to_castle : SubmitterConfig → Call → TransactionRequest
to_castle config call = record { to = config.castle_address; input = call }

abbrev pub max_size : SubmitterConfig → PendingOrder → ℕ
max_size config order =
    if ltb 0 order.max_order_size then order.max_order_size else config.default_max_order_size

-- `decimal` prints a number.
module _ (decimal : ℕ → String) {Wallet : Type 0} (s : OnchainSubmitter Wallet) where
  -- What the three methods have in common: in a dry run a made-up receipt, else an error where
  -- there is no provider, else the transaction with its retries.
  unfoldable pub submit : String → Call → Sent → Result TxReceipt String × Sent
  submit dry_hash call sent =
      if s.config.dry_run then (ok (dry_run_receipt dry_hash), sent) else elim s.provider [
        | none ↦ (err "Provider not initialized", sent)
        | some provider ↦
            send_transaction_with_retry provider s.config (to_castle s.config call) sent
      ]

  pub update_multiple_quotes : List ℕ → Sent → Result TxReceipt String × Sent
  unfolding submit
  update_multiple_quotes index_ids sent =
      submit "dry-run-quote-update" (update_multiple_index_quotes_call s.config.vendor_id index_ids)
        sent

  unfoldable pub process_pending_buy_order : ℕ → ℕ → ℕ → Sent → Result TxReceipt String × Sent
  unfolding submit
  process_pending_buy_order index_id trader max_order_size sent =
      submit (str_append "dry-run-buy-" (decimal index_id))
        (process_pending_buy_order_call s.config.vendor_id index_id trader max_order_size) sent

  unfoldable pub process_pending_sell_order : ℕ → ℕ → ℕ → Sent → Result TxReceipt String × Sent
  unfolding submit
  process_pending_sell_order index_id trader max_order_size sent =
      submit (str_append "dry-run-sell-" (decimal index_id))
        (process_pending_sell_order_call s.config.vendor_id index_id trader max_order_size) sent

  -- The quotes, where there are indices; a failure is only logged.
  pub settle_quotes : List ℕ → Sent → Option TxReceipt × Sent
  unfolding update_multiple_quotes
  settle_quotes index_ids sent =
      if is_empty_list index_ids
      then (none, sent)
      else (let (result, sent') = update_multiple_quotes index_ids sent in
          (elim result [ ok receipt ↦ some receipt | err e ↦ none ], sent'))

  -- The loops over the orders.
  pub settle_buys : List PendingOrder → Sent → OrderResults × Sent
  unfolding process_pending_buy_order
  settle_buys [] sent = ([], sent)
  settle_buys (order ∷ orders) sent =
      let (result, sent') =
        process_pending_buy_order order.index_id order.trader_address (max_size s.config order)
          sent in
      let (results, sent'') = settle_buys orders sent' in
      ((order.index_id, result) ∷ results, sent'')

  pub settle_sells : List PendingOrder → Sent → OrderResults × Sent
  unfolding process_pending_sell_order
  settle_sells [] sent = ([], sent)
  settle_sells (order ∷ orders) sent =
      let (result, sent') =
        process_pending_sell_order order.index_id order.trader_address (max_size s.config order)
          sent in
      let (results, sent'') = settle_sells orders sent' in
      ((order.index_id, result) ∷ results, sent'')

  -- `elapsed_ms` is the reading of the clock.
  pub settle_batch : ℕ → SettlementPayload → Sent → Result SettlementResult String × Sent
  unfolding settle_quotes settle_buys settle_sells
  settle_batch elapsed_ms payload sent =
      let (quote_update_tx, quoted) = settle_quotes payload.index_ids sent in
      let (buys, bought) = settle_buys payload.buy_orders quoted in
      let (sells, sold) = settle_sells payload.sell_orders bought in
      (
        ok (record {
          quote_update_tx = quote_update_tx;
          buy_order_results = buys;
          sell_order_results = sells;
          total_succeeded =
              count (λ (r : ℕ × Result TxReceipt String). is_ok r.1) buys
              + count (λ (r : ℕ × Result TxReceipt String). is_ok r.1) sells;
          total_failed =
              count (λ (r : ℕ × Result TxReceipt String). is_err r.1) buys
              + count (λ (r : ℕ × Result TxReceipt String). is_err r.1) sells;
          batch_id = payload.batch_id;
          elapsed_ms = elapsed_ms;
        }),
        sold,
      )
