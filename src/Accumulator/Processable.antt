-- ===== src/Accumulator/Processable.antt =====
-- `ProcessableBatch` of bin/keeper/src/accumulator/processable.rs: a flushed batch with buys and
-- sells apart, and the orders to settle.
pub mod Settlement
pub mod Ids
pub mod Traders
mod Tests
use vendor.Base.{
  ℕ, ◌+◌, List, [], ◌∷◌, ◌++◌, Option, none, some, Bool, ltb, leb, if◌then◌else◌, unwrap_or,
}
use vendor.Base.Map.{Map, nat_eq, insert}
use vendor.Accumulator.Batch.{FlushTrigger, manual, IndividualOrderInfo, IndexState, OrderBatch}

pub record BuyOrderEntry : Type 0 where
  pub index_id : ℕ
  pub total_amount : ℕ
  pub order_count : ℕ
  pub vault_address : Option ℕ

pub record SellOrderEntry : Type 0 where
  pub index_id : ℕ
  pub total_amount : ℕ
  pub order_count : ℕ
  pub vault_address : Option ℕ

pub record SettlementOrder : Type 0 where
  pub index_id : ℕ
  pub trader_address : ℕ
  pub amount : ℕ
  pub vault_address : Option ℕ

pub record ProcessableBatch : Type 0 where
  pub buy_orders : List BuyOrderEntry
  pub sell_orders : List SellOrderEntry
  pub unique_index_ids : List ℕ
  pub vault_addresses : Map ℕ ℕ
  pub created_at : ℕ
  pub flushed_at : ℕ
  pub flush_trigger : FlushTrigger
  pub total_orders : ℕ
  pub settlement_buy_orders : List SettlementOrder
  pub settlement_sell_orders : List SettlementOrder

-- What the loop starts from.
abbrev pub unfilled : ℕ → OrderBatch → ProcessableBatch
unfilled now batch = record {
  buy_orders = [];
  sell_orders = [];
  unique_index_ids = [];
  vault_addresses = [];
  created_at = batch.created_at;
  flushed_at = now;
  flush_trigger = unwrap_or batch.flush_trigger manual;
  total_orders = 0;
  settlement_buy_orders = [];
  settlement_sell_orders = [];
}

abbrev pub settlement_order : ℕ → Option ℕ → IndividualOrderInfo → SettlementOrder
settlement_order index_id vault_address info = record {
  index_id = index_id;
  trader_address = info.trader_address;
  amount = info.amount;
  vault_address = vault_address;
}

-- The loop over the individual orders of one index.
pub settle_orders : ℕ → Option ℕ → List IndividualOrderInfo → ProcessableBatch → ProcessableBatch
settle_orders index_id vault_address [] p = p
settle_orders index_id vault_address (info ∷ infos) p =
    let order = settlement_order index_id vault_address info in
    settle_orders index_id vault_address infos (
      if info.is_buy
      then record p { settlement_buy_orders = p.settlement_buy_orders ++ order ∷ [] }
      else record p { settlement_sell_orders = p.settlement_sell_orders ++ order ∷ [] })

-- What the body of the loop adds for one index before it settles the orders.
pub add_entries : ℕ → IndexState → ProcessableBatch → ProcessableBatch
add_entries index_id s p = record p {
  unique_index_ids = p.unique_index_ids ++ index_id ∷ [];
  total_orders = p.total_orders + s.order_count;
  vault_addresses = elim s.vault_address [
    | none ↦ p.vault_addresses
    | some v ↦ insert index_id v p.vault_addresses
  ];
  buy_orders =
      if ltb 0 s.total_deposits
      then p.buy_orders
        ++ record {
          index_id = index_id;
          total_amount = s.total_deposits;
          order_count = s.deposit_count;
          vault_address = s.vault_address;
        }
          ∷ []
      else p.buy_orders;
  sell_orders =
      if ltb 0 s.total_withdrawals
      then p.sell_orders
        ++ record {
          index_id = index_id;
          total_amount = s.total_withdrawals;
          order_count = s.withdrawal_count;
          vault_address = s.vault_address;
        }
          ∷ []
      else p.sell_orders;
}

-- The loop over the indices of the batch.
pub split_loop : Map ℕ IndexState → ProcessableBatch → ProcessableBatch
unfolding settle_orders add_entries
split_loop [] p = p
split_loop ((index_id, s) ∷ rest) p =
    split_loop rest
      (settle_orders index_id s.vault_address s.individual_orders (add_entries index_id s p))

-- `sort` on ids.
pub sorted_insert : ℕ → List ℕ → List ℕ
sorted_insert n [] = n ∷ []
sorted_insert n (k ∷ ks) = if leb n k then n ∷ k ∷ ks else k ∷ sorted_insert n ks

pub sort : List ℕ → List ℕ
unfolding sorted_insert
sort [] = []
sort (n ∷ ns) = sorted_insert n (sort ns)

pub from_order_batch : ℕ → OrderBatch → ProcessableBatch
unfolding split_loop sort
from_order_batch now batch =
    let p = split_loop batch.indices (unfilled now batch) in
    record p { unique_index_ids = sort p.unique_index_ids }
