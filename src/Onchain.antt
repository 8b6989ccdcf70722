-- ===== src/Onchain.antt =====
-- bin/keeper/src/onchain/types.rs, and the sending of one transaction in
-- bin/keeper/src/onchain/submitter.rs. The chain is the provider of the alloy crate; it may answer
-- each attempt as it likes, depending on all the attempts before, which are kept as a list.
pub mod Settle
pub mod Retry
pub mod Submit
mod Tests
use Prim.Native.String.{String}
use vendor.Base.{
  ℕ, zero, suc, ◌+◌, List, [], ◌∷◌, ◌++◌, Option, none, some, Bool, true, false, ◌&&◌, nat_beq,
  length, unwrap_or, Result, ok, err, is_empty_list,
}
use vendor.Uint256.{u128_mod}

pub data OrderType : Type 0 where
  buy : OrderType
  sell : OrderType

pub record PendingOrder : Type 0 where
  pub index_id : ℕ
  pub trader_address : ℕ
  pub max_order_size : ℕ
  pub order_type : OrderType
  pub vault_address : Option ℕ

pub record SettlementPayload : Type 0 where
  pub index_ids : List ℕ
  pub buy_orders : List PendingOrder
  pub sell_orders : List PendingOrder
  pub batch_id : String

pub total_orders : SettlementPayload → ℕ
total_orders p = length p.buy_orders + length p.sell_orders

pub is_empty : SettlementPayload → Bool
is_empty p = is_empty_list p.index_ids && is_empty_list p.buy_orders && is_empty_list p.sell_orders

pub record TxReceipt : Type 0 where
  pub tx_hash : String
  pub block_number : ℕ
  pub gas_used : ℕ
  pub status : Bool

-- The results of the orders, each with the id of its index.
abbrev pub OrderResults : Type 0
OrderResults = List (ℕ × Result TxReceipt String)

pub record SettlementResult : Type 0 where
  pub quote_update_tx : Option TxReceipt
  pub buy_order_results : OrderResults
  pub sell_order_results : OrderResults
  pub total_succeeded : ℕ
  pub total_failed : ℕ
  pub batch_id : String
  pub elapsed_ms : ℕ

pub is_fully_successful : SettlementResult → Bool
is_fully_successful r = nat_beq r.total_failed 0

pub quote_update_succeeded : SettlementResult → Bool
quote_update_succeeded r = elim r.quote_update_tx [ none ↦ false | some tx ↦ tx.status ]

-- The calls of the contracts: their names and arguments, which alloy encodes.
pub data Call : Type 0 where
  update_multiple_index_quotes_call : ℕ → List ℕ → Call
  process_pending_buy_order_call : ℕ → ℕ → ℕ → ℕ → Call
  process_pending_sell_order_call : ℕ → ℕ → ℕ → ℕ → Call
  submit_market_data_call : ℕ → List ℕ → List ℕ → List ℕ → List ℕ → Call
  submit_buy_order_call : ℕ → ℕ → ℕ → ℕ → ℕ → Call

pub record TransactionRequest : Type 0 where
  pub to : ℕ
  pub input : Call

-- The transactions handed to the provider, the oldest first, whether they failed or not.
abbrev pub Sent : Type 0
Sent = List TransactionRequest

-- A receipt of the chain.
pub record Receipt : Type 0 where
  pub block_number : Option ℕ
  pub gas_used : ℕ
  pub status : Bool

-- The provider: it takes a transaction and gives its hash, as printed, and later the receipt of a
-- hash. The first argument is what was sent before.
pub record Provider : Type 0 where
  pub send_transaction : Sent → TransactionRequest → Result String String
  pub get_receipt : Sent → String → Result Receipt String

pub record SubmitterConfig : Type 0 where
  pub castle_address : ℕ
  pub vendor_id : ℕ
  pub private_key : Option String
  pub dry_run : Bool
  pub retry_attempts : ℕ
  pub default_max_order_size : ℕ

pub record OnchainSubmitter (Wallet : Type 0) : Type 0 where
  pub config : SubmitterConfig
  pub provider : Option Provider
  pub wallet : Option Wallet

module _ {Wallet : Type 0} where
  -- `parse` reads a private key, which the alloy crate does.
  pub new_with_provider :
      (String → Result Wallet String)
      → SubmitterConfig
      → Provider
      → Result (OnchainSubmitter Wallet) String
  new_with_provider parse config provider = elim config.private_key [
    | none ↦ ok (record { config = config; provider = some provider; wallet = none })
    | some pk ↦ elim (parse pk) [
      | ok signer ↦ ok (record { config = config; provider = some provider; wallet = some signer })
      | err e ↦ err e
    ]
  ]

  unfoldable pub is_dry_run : OnchainSubmitter Wallet → Bool
  is_dry_run s = s.config.dry_run

-- The receipt that the submitter keeps of the chain's.
pub receipt_of : String → Receipt → TxReceipt
receipt_of tx_hash receipt = record {
  tx_hash = tx_hash;
  block_number = unwrap_or receipt.block_number 0;
  gas_used = receipt.gas_used;
  status = receipt.status;
}

-- The provider is there: all callers have returned an error without one.
pub try_send_transaction : Provider → TransactionRequest → Sent → Result TxReceipt String
unfolding receipt_of
try_send_transaction provider tx sent = elim (provider.send_transaction sent tx) [
  | err e ↦ err e
  | ok tx_hash ↦ elim (provider.get_receipt sent tx_hash) [
    | err e ↦ err e
    | ok receipt ↦ ok (receipt_of tx_hash receipt)
  ]
]

-- `for attempt in 1..=retry_attempts`, with the attempts that are left and the last error; the
-- pauses between attempts are left out.
pub retry_loop :
    Provider → ℕ → TransactionRequest → Option String → Sent → Result TxReceipt String × Sent
retry_loop provider zero tx last_error sent =
    (err (unwrap_or last_error "All retry attempts failed"), sent)
retry_loop provider (suc attempts) tx last_error sent =
    elim (try_send_transaction provider tx sent) [
      | ok receipt ↦ (ok receipt, sent ++ tx ∷ [])
      | err e ↦ retry_loop provider attempts tx (some e) (sent ++ tx ∷ [])
    ]

pub send_transaction_with_retry :
    Provider → SubmitterConfig → TransactionRequest → Sent → Result TxReceipt String × Sent
unfolding retry_loop
send_transaction_with_retry provider config tx sent =
    retry_loop provider config.retry_attempts tx none sent
