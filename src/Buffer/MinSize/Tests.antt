-- ===== src/Buffer/MinSize/Tests.antt =====
-- Orders for two symbols, with a minimum of ten for one of them.

use vendor.Base.{◌+◌, ◌≡◌, refl, List, [], ◌∷◌, arith}
use vendor.Base.Map.{string_eq}
use vendor.Base.Int.{pos}
use vendor.Uint256.{reference}
use vendor.Buffer.MinSize.{set_min_order_sizes, new_handler}
use vendor.Amount.{IsAmount, checked_add, try_convert_to_u128, convert_from_u128}
use vendor.Buffer.MinSize.{
  MinSizeHandler, get_min_size, get_stale_buffers, is_stale, buffered_asset_count, total_buffered,
  total_from,
}
use vendor.Buffer.MinSize.Conserves.{held}
use vendor.Buffer.MinSize.Runs.{
  Event, receives, flushes, run, all_sent, all_received, received, run-conserves,
}

abbrev empty : MinSizeHandler
empty = record {
  min_order_sizes = ("BTC", 10) ∷ [];
  buffer_positions = [];
  default_min_size = 5;
  stale_threshold_secs = pos 30;
}

-- Four units of BTC are held back.
abbrev waiting : MinSizeHandler
waiting = record empty {
  buffer_positions = ("BTC", record { quantity = 4; started_at = 1000; order_count = 1 }) ∷ [];
}

abbrev events : List Event
events =
    receives 2000 "BTC" 3
    ∷ receives 2500 "ETH" 2
    ∷ receives 3000 "BTC" 6
    ∷ receives 4000 "BTC" 1
    ∷ flushes 5000 "BTC"
    ∷ []

events-fit : IsAmount (held "BTC" waiting + all_received "BTC" events)
unfolding all_received received
events-fit = omega arith

run-conserves_example :
    all_sent "BTC" waiting events + held "BTC" (run waiting events)
    ≡ held "BTC" waiting + all_received "BTC" events
run-conserves_example = run-conserves "BTC" waiting events events-fit

-- The position becomes stale after thirty seconds, and a flush before it is executed reports it.
stale_buffers :
    (get_stale_buffers 31000 waiting ≡ ("BTC", 4) ∷ [])
    × (get_stale_buffers 30999 waiting ≡ [])
    × (buffered_asset_count waiting ≡ 1)
    × (total_buffered waiting ≡ 4)
unfolding get_stale_buffers is_stale buffered_asset_count total_buffered total_from checked_add
    try_convert_to_u128 convert_from_u128
stale_buffers = (refl, refl, refl, refl)

-- A symbol without a minimum of its own has the default one.
minimum_sizes :
    (set_min_order_sizes (("BTC", 10) ∷ []) (new_handler 5)
      ≡ record empty { stale_threshold_secs = (new_handler 5).stale_threshold_secs })
    × (get_min_size "BTC" empty ≡ 10)
    × (get_min_size "ETH" empty ≡ 5)
unfolding set_min_order_sizes new_handler get_min_size
minimum_sizes = (refl, refl, refl)
