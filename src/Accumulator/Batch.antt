-- ===== src/Accumulator/Batch.antt =====
-- bin/keeper/src/accumulator/types.rs: orders, the state of an index, and a batch of them.
pub mod Totals
pub mod Orders
pub mod Load
mod Tests
use Prim.Native.String.{String}
use vendor.Base.{
  ℕ, ◌+◌, ◌-◌, ◌^◌, List, [], ◌∷◌, ◌++◌, Option, none, some, Bool, true, false, ltb, leb, nat_beq,
  ◌&&◌, if◌then◌else◌, unwrap_or, Outcome, returns, panics, ◌>>=◌, unwrap,
}
use vendor.Base.Int.{ℤ, pos, negsuc, sub_ℕ, leb_ℤ}
use vendor.Base.Map.{Map, nat_eq, lookup, insert}
use vendor.Uint256.{Uint256}
use vendor.Amount.{checked_add, checked_sub}

pub data FlushTrigger : Type 0 where
  time_window : ℤ → FlushTrigger
  block_change : ℕ → ℕ → FlushTrigger
  max_batch_size : ℕ → FlushTrigger
  manual : FlushTrigger

pub data OrderAction : Type 0 where
  deposit : String → ℕ → OrderAction
  withdraw : String → ℕ → OrderAction

pub record IndexOrder : Type 0 where
  pub index_id : ℕ
  pub action : OrderAction
  pub timestamp : ℕ
  pub vault_address : Option ℕ
  pub trader_address : Option ℕ
  pub tx_hash : Option ℕ
  pub correlation_id : Option String

pub record IndividualOrderInfo : Type 0 where
  pub trader_address : ℕ
  pub amount : ℕ
  pub is_buy : Bool

pub record IndexState : Type 0 where
  pub index_id : ℕ
  pub net_collateral_change : ℕ
  pub total_deposits : ℕ
  pub total_withdrawals : ℕ
  pub order_count : ℕ
  pub deposit_count : ℕ
  pub withdrawal_count : ℕ
  pub first_order_time : ℕ
  pub last_order_time : ℕ
  pub vault_address : Option ℕ
  pub individual_orders : List IndividualOrderInfo

pub new_index : ℕ → ℕ → IndexState
new_index now index_id = record {
  index_id = index_id;
  net_collateral_change = 0;
  total_deposits = 0;
  total_withdrawals = 0;
  order_count = 0;
  deposit_count = 0;
  withdrawal_count = 0;
  first_order_time = now;
  last_order_time = now;
  vault_address = none;
  individual_orders = [];
}

abbrev pub age_ms : ℕ → IndexState → ℤ
age_ms now s = sub_ℕ now s.first_order_time

pub record OrderBatch : Type 0 where
  pub indices : Map ℕ IndexState
  pub batch_window_ms : ℕ
  pub created_at : ℕ
  pub start_block : ℕ
  pub current_block : ℕ
  pub flush_trigger : Option FlushTrigger

unfoldable pub new_with_block : ℕ → ℕ → ℕ → OrderBatch
new_with_block now batch_window_ms current_block = record {
  indices = [];
  batch_window_ms = batch_window_ms;
  created_at = now;
  start_block = current_block;
  current_block = current_block;
  flush_trigger = none;
}

unfoldable pub new_batch : ℕ → ℕ → OrderBatch
unfolding new_with_block
new_batch now batch_window_ms = new_with_block now batch_window_ms 0

pub update_block : ℕ → OrderBatch → OrderBatch
update_block block_number b = record b { current_block = block_number }

-- The first part of `add_order`: the times and the vault of the index.
pub touch_index : IndexOrder → IndexState → IndexState
touch_index order s = record s {
  first_order_time = if nat_beq s.order_count 0 then order.timestamp else s.first_order_time;
  vault_address = elim order.vault_address [ none ↦ s.vault_address | some a ↦ some a ];
}

-- `individual_orders.push`, for a trader that is the zero address where none is given.
abbrev pub push_order : Option ℕ → ℕ → Bool → IndexState → IndexState
push_order trader amount is_buy s =
    let info : IndividualOrderInfo = record {
      trader_address = unwrap_or trader 0;
      amount = amount;
      is_buy = is_buy;
    } in
    record s { individual_orders = s.individual_orders ++ info ∷ [] }

module _ ⦃u : Uint256⦄ where
  pub add_deposit : ℕ → ℕ → IndexState → Outcome IndexState
  add_deposit now amount s = do
    deposits ← unwrap (checked_add s.total_deposits amount)
    net ← unwrap (checked_add s.net_collateral_change amount)
    returns (record s {
      total_deposits = deposits;
      net_collateral_change = net;
      order_count = s.order_count + 1;
      deposit_count = s.deposit_count + 1;
      last_order_time = now;
    })

  pub add_withdrawal : ℕ → ℕ → IndexState → Outcome IndexState
  add_withdrawal now amount s = do
    withdrawals ← unwrap (checked_add s.total_withdrawals amount)
    returns (record s {
      total_withdrawals = withdrawals;
      net_collateral_change = unwrap_or (checked_sub s.net_collateral_change amount) 0;
      order_count = s.order_count + 1;
      withdrawal_count = s.withdrawal_count + 1;
      last_order_time = now;
    })

  pub add_action : ℕ → Option ℕ → OrderAction → IndexState → Outcome IndexState
  unfolding add_deposit add_withdrawal
  add_action now trader (deposit user amount) s = do
    s' ← add_deposit now amount s
    returns (push_order trader amount true s')
  add_action now trader (withdraw user amount) s = do
    s' ← add_withdrawal now amount s
    returns (push_order trader amount false s')

  pub add_order : ℕ → IndexOrder → OrderBatch → Outcome OrderBatch
  add_order now order b =
      let found = unwrap_or (lookup order.index_id b.indices) (new_index now order.index_id) in
      do
        s ← add_action now order.trader_address order.action (touch_index order found)
        returns (record b { indices = insert order.index_id s b.indices })

-- `u64 as i64`
abbrev pub as_i64 : ℕ → ℤ
as_i64 w = if ltb w (2 ^ 63) then pos w else negsuc (2 ^ 64 - 1 - w)

-- The loop over `indices` in `get_flush_trigger`.
pub time_trigger : ℕ → ℕ → Map ℕ IndexState → Option FlushTrigger
time_trigger now window [] = none
time_trigger now window ((_, s) ∷ rest) =
    if leb_ℤ (as_i64 window) (age_ms now s)
    then some (time_window (age_ms now s))
    else time_trigger now window rest

pub get_flush_trigger : ℕ → OrderBatch → Option FlushTrigger
unfolding time_trigger
get_flush_trigger now b =
    if ltb b.start_block b.current_block && ltb 0 b.start_block
    then some (block_change b.start_block b.current_block)
    else time_trigger now b.batch_window_ms b.indices

pub should_flush : ℕ → OrderBatch → Bool
should_flush now b = elim (get_flush_trigger now b) [ none ↦ false | some _ ↦ true ]

pub is_empty : OrderBatch → Bool
is_empty b = elim b.indices [ [] ↦ true | _ ∷ _ ↦ false ]

pub orders_in : Map ℕ IndexState → ℕ
orders_in [] = 0
orders_in ((_, s) ∷ rest) = s.order_count + orders_in rest

pub total_order_count : OrderBatch → ℕ
total_order_count b = orders_in b.indices
