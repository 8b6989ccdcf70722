-- ===== src/Sender/RateLimiter.antt =====
-- `RateLimiter` of bin/vendor/src/order_sender/rate_limiter.rs. An `Instant` is a number of clock
-- ticks, and each reading of the clock is an argument. `duration_since` stops at zero, as `-`
-- does. The lower bound that `tokio::time::sleep` documents is a hypothesis of the theorems.
pub mod Timestamps
pub mod Window
mod Tests
use vendor.Base.{ℕ, ◌+◌, ◌-◌, List, [], ◌∷◌, ◌++◌, Bool, false, ltb, leb, if◌then◌else◌, length}

-- Oldest timestamp first.
pub record RateLimiter : Type 0 where
  pub timestamps : List ℕ
  pub rate_limit : ℕ
  pub window : ℕ

pub with_window : ℕ → ℕ → RateLimiter
with_window rate_limit window = record { timestamps = []; rate_limit = rate_limit; window = window }

pub cleanup_loop : ℕ → ℕ → List ℕ → List ℕ
cleanup_loop now window [] = []
cleanup_loop now window (oldest ∷ rest) =
    if leb window (now - oldest) then cleanup_loop now window rest else oldest ∷ rest

pub cleanup_old_timestamps : ℕ → RateLimiter → RateLimiter
unfolding cleanup_loop
cleanup_old_timestamps now r = record r { timestamps = cleanup_loop now r.window r.timestamps }

-- After the first cleanup, with the front of the queue: is it full, and is its oldest entry
-- still in the window at the time `checked`?
pub must_sleep : ℕ → RateLimiter → List ℕ → Bool
must_sleep checked r [] = false
must_sleep checked r (oldest ∷ rest) =
    if leb r.rate_limit (length (oldest ∷ rest)) then ltb (checked - oldest) r.window else false

-- The time that `wait_for_slot` then sleeps.
pub sleep_duration : ℕ → RateLimiter → List ℕ → ℕ
sleep_duration checked r [] = 0
sleep_duration checked r (oldest ∷ rest) = r.window - (checked - oldest)

-- The clock is read at `started` for the cleanup, at `checked` for the age of the oldest entry,
-- and, after a sleep, at `woken` for the second cleanup.
pub wait_for_slot : ℕ → ℕ → ℕ → RateLimiter → RateLimiter
unfolding must_sleep
wait_for_slot started checked woken r =
    let clean = cleanup_old_timestamps started r in
    if must_sleep checked clean clean.timestamps then cleanup_old_timestamps woken clean else clean

pub trim_loop : ℕ → List ℕ → List ℕ
trim_loop rate_limit [] = []
trim_loop rate_limit (oldest ∷ rest) =
    if ltb rate_limit (length (oldest ∷ rest)) then trim_loop rate_limit rest else oldest ∷ rest

pub record_operation : ℕ → RateLimiter → RateLimiter
unfolding trim_loop
record_operation now r = record r { timestamps = trim_loop r.rate_limit (r.timestamps ++ now ∷ []) }

pub can_proceed : ℕ → RateLimiter → Bool × RateLimiter
can_proceed now r =
    let clean = cleanup_old_timestamps now r in
    (ltb (length clean.timestamps) clean.rate_limit, clean)

pub available_slots : ℕ → RateLimiter → ℕ × RateLimiter
available_slots now r =
    let clean = cleanup_old_timestamps now r in (clean.rate_limit - length clean.timestamps, clean)

pub reset : RateLimiter → RateLimiter
reset r = record r { timestamps = [] }
