-- ===== src/Buffer/MinSize.antt =====
-- `MinSizeHandler` of bin/vendor/src/buffer/min_size_handler.rs: amounts below the exchange's
-- minimum are held back for each symbol until together they reach it. Each method reads the
-- clock once, as its argument `now`; `order_count` wraps, as in a release build.
pub mod Conserves
pub mod Runs
pub mod Restores
mod Tests
use Prim.Native.String.{String}
use vendor.Base.{
  ℕ, suc, ◌+◌, ◌*◌, ◌%◌, ◌^◌, List, [], ◌∷◌, Option, none, some, Bool, true, false, ltb, leb, ◌&&◌,
  if◌then◌else◌, unwrap_or, count, map, filter,
}
use vendor.Base.Int.{ℤ, pos, sub_ℕ, leb_ℤ, trunc_div}
use vendor.Base.Map.{Map, PartialEq, string_eq, lookup, insert}
use vendor.Uint256.{Uint256}
use vendor.Amount.{checked_add}

pub data OrderAction : Type 0 where
  execute : ℕ → OrderAction
  buffer : OrderAction

pub record BufferedPosition : Type 0 where
  pub quantity : ℕ
  pub started_at : ℕ
  pub order_count : ℕ

pub record MinSizeHandler : Type 0 where
  pub min_order_sizes : Map String ℕ
  pub buffer_positions : Map String BufferedPosition
  pub default_min_size : ℕ
  pub stale_threshold_secs : ℤ

abbrev pub new_position : ℕ → BufferedPosition
new_position now = record { quantity = 0; started_at = now; order_count = 0 }

abbrev pub age_secs : ℕ → BufferedPosition → ℤ
age_secs now p = trunc_div (sub_ℕ now p.started_at) 1000

pub new_handler : ℕ → MinSizeHandler
new_handler default_min_size = record {
  min_order_sizes = [];
  buffer_positions = [];
  default_min_size = default_min_size;
  stale_threshold_secs = pos 300;
}

pub set_min_order_sizes : Map String ℕ → MinSizeHandler → MinSizeHandler
set_min_order_sizes sizes h = record h { min_order_sizes = sizes }

pub get_min_size : String → MinSizeHandler → ℕ
get_min_size symbol h = unwrap_or (lookup symbol h.min_order_sizes) h.default_min_size

-- `entry(symbol).or_insert_with(BufferedPosition::new)`
abbrev pub position_or_new : ℕ → String → MinSizeHandler → BufferedPosition
position_or_new now symbol h = unwrap_or (lookup symbol h.buffer_positions) (new_position now)

abbrev pub put_position : String → BufferedPosition → MinSizeHandler → MinSizeHandler
put_position symbol p h = record h { buffer_positions = insert symbol p h.buffer_positions }

-- What an emptied position is left with.
abbrev pub emptied : ℕ → BufferedPosition → BufferedPosition
emptied now p = record p { quantity = 0; started_at = now; order_count = 0 }

-- The end of `process_order`, on the position that already has the order.
pub settle : ℕ → String → ℕ → BufferedPosition → MinSizeHandler → OrderAction × MinSizeHandler
settle now symbol min_size position h =
    if leb min_size position.quantity
    then (execute position.quantity, put_position symbol (emptied now position) h)
    else (buffer, put_position symbol position h)

module _ ⦃u : Uint256⦄ where
  -- Its beginning: an amount that would overflow is left out, and the order counted all the same.
  pub add_order : ℕ → BufferedPosition → BufferedPosition
  add_order quantity old = record old {
    quantity = unwrap_or (checked_add old.quantity quantity) old.quantity;
    order_count = (old.order_count + 1) % 2 ^ 32;
  }

  pub process_order : ℕ → String → ℕ → MinSizeHandler → OrderAction × MinSizeHandler
  process_order now symbol quantity h =
      settle now symbol (get_min_size symbol h) (add_order quantity (position_or_new now symbol h))
        h

  total_from : ℕ → Map String BufferedPosition → ℕ
  total_from acc [] = acc
  total_from acc ((_, p) ∷ m) = total_from (unwrap_or (checked_add acc p.quantity) acc) m

  pub total_buffered : MinSizeHandler → ℕ
  unfolding total_from
  total_buffered h = total_from 0 h.buffer_positions

pub is_stale : ℕ → MinSizeHandler → String × BufferedPosition → Bool
is_stale now h (_, p) = ltb 0 p.quantity && leb_ℤ h.stale_threshold_secs (age_secs now p)

abbrev pub quantity_of : String × BufferedPosition → String × ℕ
quantity_of (symbol, p) = (symbol, p.quantity)

pub get_stale_buffers : ℕ → MinSizeHandler → List (String × ℕ)
unfolding is_stale
get_stale_buffers now h = map quantity_of (filter (is_stale now h) h.buffer_positions)

pub flush_found : ℕ → String → Option BufferedPosition → MinSizeHandler → Option ℕ × MinSizeHandler
flush_found now symbol none h = (none, h)
flush_found now symbol (some p) h =
    if ltb 0 p.quantity then (some p.quantity, put_position symbol (emptied now p) h) else (none, h)

pub flush_buffer : ℕ → String → MinSizeHandler → Option ℕ × MinSizeHandler
flush_buffer now symbol h = flush_found now symbol (lookup symbol h.buffer_positions) h

abbrev pub is_held : String × BufferedPosition → Bool
is_held (_, p) = ltb 0 p.quantity

pub get_buffered_quantities : MinSizeHandler → Map String ℕ
get_buffered_quantities h = map quantity_of (filter is_held h.buffer_positions)

pub restore_buffered_quantities : ℕ → Map String ℕ → MinSizeHandler → MinSizeHandler
restore_buffered_quantities now [] h = h
restore_buffered_quantities now ((symbol, quantity) ∷ quantities) h =
    let old = position_or_new now symbol h in
    let position : BufferedPosition = record old { quantity = quantity; order_count = 1 } in
    restore_buffered_quantities now quantities (put_position symbol position h)

pub buffered_asset_count : MinSizeHandler → ℕ
buffered_asset_count h = count is_held h.buffer_positions
