-- ===== src/Buffer/Order.antt =====
-- The data of bin/vendor/src/buffer/types.rs.
use Prim.Native.String.{String}
use vendor.Base.{ℕ, Option, none, some}
use vendor.Base.Int.{ℤ, sub_ℕ}

pub data BufferOrderSide : Type 0 where
  buy sell : BufferOrderSide

-- `received_at` is a clock reading.
pub record BufferedOrder : Type 0 where
  pub asset_id : ℕ
  pub symbol : String
  pub side : BufferOrderSide
  pub quantity : ℕ
  pub received_at : ℕ
  pub correlation_id : String
  pub batch_id : Option String

-- `BufferedOrder::new`, at the time `now`.
abbrev pub new_order : ℕ → ℕ → String → BufferOrderSide → ℕ → String → BufferedOrder
new_order now asset_id symbol side quantity correlation_id = record {
  asset_id = asset_id;
  symbol = symbol;
  side = side;
  quantity = quantity;
  received_at = now;
  correlation_id = correlation_id;
  batch_id = none;
}

abbrev pub with_batch_id : BufferedOrder → String → BufferedOrder
with_batch_id o batch_id = record o { batch_id = some batch_id }

abbrev pub age_ms : ℕ → BufferedOrder → ℤ
age_ms now o = sub_ℕ now o.received_at

pub record BufferStats : Type 0 where
  pub queue_depth : ℕ
  pub buffered_assets : ℕ
  pub oldest_order_age_ms : ℤ
  pub total_processed : ℕ
  pub last_checkpoint : ℕ
