-- ===== src/Onchain/Tests.antt =====
-- A settlement whose first attempt fails and whose receipts say that the transaction was reverted.
use Prim.Native.String.{String}
use vendor.Base.{
  returns, ℕ, ◌≡◌, refl, [], ◌∷◌, none, some, true, false, if◌then◌else◌, nat_beq, length, Result,
  ok, err, arith,
}
use vendor.Uint256.{reference}
use vendor.Amount.{checked_add, checked_sub, try_convert_to_u128, convert_from_u128}
use vendor.Processor.{
  MarketDataSnapshot, new_snapshot, add_asset, has_all_assets, new_payload, add_buy_order,
  net_collateral_change,
}
use vendor.Onchain.{
  buy, sell, SettlementPayload, Provider, SubmitterConfig, OnchainSubmitter, TransactionRequest,
  new_with_provider, is_dry_run, total_orders, is_empty, send_transaction_with_retry, retry_loop,
  try_send_transaction, receipt_of, process_pending_buy_order_call,
}
use vendor.Onchain.Retry.{FirstSuccess, send_transaction_with_retry-FirstSuccess}
use vendor.Onchain.Settle.{settle_batch, to_castle}
use vendor.Onchain.Settle.Sequence.{Adds, planned, settle_batch-Adds}
use vendor.Onchain.Submit.{dry_run, submit_payload, dry_run_summary, total_loop}

abbrev decimal : ℕ → String
decimal n = if nat_beq n 0 then "0" else "n"

abbrev reverting : Provider
reverting = record {
  send_transaction = λ sent tx. if nat_beq (length sent) 0 then err "busy" else ok "0xab";
  get_receipt =
      λ sent tx_hash. ok (record { block_number = some 7; gas_used = 21000; status = false });
}

abbrev settings : SubmitterConfig
settings = record {
  castle_address = 1;
  vendor_id = 2;
  private_key = none;
  dry_run = false;
  retry_attempts = 3;
  default_max_order_size = 100;
}

abbrev submitter : OnchainSubmitter ℕ
submitter = record { config = settings; provider = some reverting; wallet = none }

abbrev dry_submitter : OnchainSubmitter ℕ
dry_submitter = record submitter { config = record settings { dry_run = true }; provider = none }

abbrev payload : SettlementPayload
payload = record {
  index_ids = 10 ∷ 11 ∷ [];
  buy_orders =
      record {
        index_id = 10;
        trader_address = 5;
        max_order_size = 0;
        order_type = buy;
        vault_address = none;
      }
      ∷ [];
  sell_orders =
      record {
        index_id = 11;
        trader_address = 6;
        max_order_size = 9;
        order_type = sell;
        vault_address = some 4;
      }
      ∷ [];
  batch_id = "b";
}

abbrev one_buy : TransactionRequest
one_buy = to_castle settings (process_pending_buy_order_call 2 10 5 100)

send_transaction_with_retry-FirstSuccess_example :
    FirstSuccess reverting 3 one_buy [] (send_transaction_with_retry reverting settings one_buy [])
send_transaction_with_retry-FirstSuccess_example =
    send_transaction_with_retry-FirstSuccess reverting settings one_buy []

settle_batch-Adds_example :
    Adds 3 (planned settings payload) [] (settle_batch decimal submitter 5 payload []).1
settle_batch-Adds_example =
    settle_batch-Adds decimal submitter reverting refl refl (omega arith) 5 payload []

-- The transaction that was reverted is the result of the second attempt.
reverted_is_ok : send_transaction_with_retry reverting settings one_buy [] ≡ (
  ok (record { tx_hash = "0xab"; block_number = 7; gas_used = 21000; status = false }),
  one_buy ∷ one_buy ∷ [],
)
unfolding send_transaction_with_retry retry_loop try_send_transaction receipt_of
reverted_is_ok = refl

with_key :
    ◌≡◌ {A = Result (OnchainSubmitter ℕ) String}
      (new_with_provider
        (λ k. err "bad key")
        (record settings { private_key = some "x" })
        reverting)
      (err "bad key")
unfolding new_with_provider
with_key = refl

two_orders :
    (total_orders payload ≡ 2) × (is_empty payload ≡ false) × (is_dry_run submitter ≡ false)
unfolding total_orders is_empty is_dry_run
two_orders = (refl, refl, refl)

market : MarketDataSnapshot
unfolding new_snapshot add_asset
market = add_asset (record { asset_id = 3; liquidity = 1; price = 2; slope = 4 }) (new_snapshot 0)

market_assets : (has_all_assets (3 ∷ []) market ≡ true) × (has_all_assets (4 ∷ []) market ≡ false)
unfolding market has_all_assets
market_assets = (refl, refl)

-- A dry run adds up the net changes.
dry_total :
    submit_payload decimal dry_submitter
      (add_buy_order
        (record {
          index_id = 1;
          collateral_added = 7;
          collateral_removed = 2;
          max_order_size = 0;
          asset_allocations = [];
        })
        (new_payload 2 market))
      []
    ≡ returns (
      ok (dry_run (record { market_data_assets = 1; buy_orders_count = 1; total_collateral = 5 })),
      [],
    )
unfolding submit_payload dry_run_summary total_loop new_payload add_buy_order market
    net_collateral_change checked_add checked_sub try_convert_to_u128 convert_from_u128
dry_total = refl
