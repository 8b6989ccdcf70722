-- ===== src/Sender/RateLimiter/Tests.antt =====
-- A limit of two operations in a window of ten ticks.
use vendor.Base.{ℕ, ◌≤◌, ◌≡◌, refl, List, [], ◌∷◌, true, false, arith, count}
use vendor.Sender.RateLimiter.{
  RateLimiter, with_window, wait_for_slot, must_sleep, sleep_duration, cleanup_old_timestamps,
  cleanup_loop, record_operation, trim_loop, can_proceed, available_slots, reset,
}
use vendor.Sender.RateLimiter.Timestamps.{in_window}
use vendor.Sender.RateLimiter.Window.{
  Slot, perform, AllTimely, last_time, recorded_times, perform_all_limited,
}

abbrev at_once : ℕ → Slot
at_once t = record { started = t; checked = t; woken = t; recorded = t }

-- The third operation asks at tick 3 and has to sleep for eight ticks.
abbrev slots : List Slot
slots = at_once 1 ∷ at_once 2 ∷ record { started = 3; checked = 3; woken = 11; recorded = 12 } ∷ []

slots-AllTimely : AllTimely 0 slots (with_window 2 10)
unfolding with_window perform must_sleep sleep_duration cleanup_old_timestamps cleanup_loop
    wait_for_slot record_operation trim_loop
slots-AllTimely = ground arith

perform_all_limited_example : count (in_window (last_time 0 slots) 10) (recorded_times slots) ≤ 2
perform_all_limited_example = perform_all_limited 2 10 0 slots (omega arith) slots-AllTimely

abbrev full : RateLimiter
full = record { timestamps = 1 ∷ 2 ∷ []; rate_limit = 2; window = 10 }

checks :
    ((can_proceed 5 full).0 ≡ false)
    × ((can_proceed 11 full).0 ≡ true)
    × ((available_slots 12 full).0 ≡ 2)
    × ((can_proceed 5 (reset full)).0 ≡ true)
unfolding can_proceed available_slots reset cleanup_old_timestamps cleanup_loop
checks = (refl, refl, refl, refl)

-- A limiter without slots never lets an operation proceed, yet waiting for a slot returns at once.
no_slots :
    ((can_proceed 5 (with_window 0 10)).0 ≡ false)
    × (wait_for_slot 5 5 5 (with_window 0 10) ≡ with_window 0 10)
unfolding can_proceed wait_for_slot with_window cleanup_old_timestamps cleanup_loop must_sleep
no_slots = (refl, refl)
