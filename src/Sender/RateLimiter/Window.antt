-- ===== src/Sender/RateLimiter/Window.antt =====
-- `RateLimiter` (bin/vendor/src/order_sender/rate_limiter.rs) for a caller that waits for a slot
-- before each operation and records it after.
use vendor.Base.{
  All-append, ℕ, ◌+◌, ◌≤◌, ◌<◌, ◌≡◌, refl, sym, ap, subst, ◌∙◌, inl, inr, List, [], ◌∷◌, ◌++◌,
  if◌then◌else◌, length, All, count, arith, Bool-cases, append-nil, append_assoc, count-append,
  count-le-length,
}
use native.Mathlib.Nat.{le_refl}
use vendor.Sender.RateLimiter.{
  RateLimiter, with_window, cleanup_old_timestamps, must_sleep, sleep_duration, wait_for_slot,
  record_operation,
}
use vendor.Sender.RateLimiter.Timestamps.{
  in_window, count-expired, expired_later, past_later, cleanup_split, cleanup-length, Room,
  Room-later, not_asleep, asleep, trim_split, trim-past,
}

-- The times of one operation: those of its wait, and when it is recorded.
pub record Slot : Type 0 where
  pub started : ℕ
  pub checked : ℕ
  pub woken : ℕ
  pub recorded : ℕ

-- An operation: wait for a slot, then record.
unfoldable pub perform : Slot → RateLimiter → RateLimiter
perform s r = record_operation s.recorded (wait_for_slot s.started s.checked s.woken r)

-- The clock never runs backwards, and a sleep lasts at least as long as it was asked to.
abbrev pub IsTimely : ℕ → Slot → RateLimiter → Type 0
IsTimely before s r =
    let clean = cleanup_old_timestamps s.started r in
    let asleep =
      if must_sleep s.checked clean clean.timestamps
      then sleep_duration s.checked clean clean.timestamps
      else 0 in
    (before ≤ s.started)
    × (s.started ≤ s.checked)
    × (s.checked + asleep ≤ s.woken)
    × (s.woken ≤ s.recorded)

abbrev pub AllTimely : ℕ → List Slot → RateLimiter → Type 0
AllTimely before [] r = Unit
AllTimely before (s ∷ slots) r = IsTimely before s r × AllTimely s.recorded slots (perform s r)

pub perform_all : List Slot → RateLimiter → RateLimiter
unfolding perform
perform_all [] r = r
perform_all (s ∷ slots) r = perform_all slots (perform s r)

abbrev pub recorded_times : List Slot → List ℕ
recorded_times [] = []
recorded_times (s ∷ slots) = s.recorded ∷ recorded_times slots

-- The limiter knows every operation of `history` that is in the window at `now`.
record Knows (now limit window : ℕ) (history : List ℕ) (r : RateLimiter) : Type 0 where
  gone : List ℕ
  split : history ≡ gone ++ r.timestamps
  expired : All (λ t. t + window ≤ now) gone
  past : All (λ t. t ≤ now) r.timestamps
  bounded : length r.timestamps ≤ limit
  same_limit : r.rate_limit ≡ limit
  same_window : r.window ≡ window

module _ {limit window : ℕ} {history : List ℕ} where
  cleanup-Knows :
      (before now : ℕ) (r : RateLimiter)
      → before ≤ now
      → Knows before limit window history r
      → Knows now limit window history (cleanup_old_timestamps now r)
  unfolding cleanup_old_timestamps
  cleanup-Knows before now r le k =
      let (gone, e, exp, past) =
        cleanup_split now r.window r.timestamps (past_later before now le r.timestamps k.past) in
      record {
        gone = k.gone ++ gone;
        split = k.split ∙ ap (◌++◌ k.gone) e ∙ sym (append_assoc k.gone gone _);
        expired =
            All-append (λ t. t + window ≤ now) k.gone gone
              (expired_later before now le window k.gone k.expired)
              (subst (λ w. All (λ t. t + w ≤ now) gone) k.same_window exp);
        past = past;
        bounded = omega (arith, cleanup-length now r.window r.timestamps, k.bounded);
        same_limit = k.same_limit;
        same_window = k.same_window;
      }

  later-Knows :
      (before now : ℕ) (r : RateLimiter)
      → before ≤ now
      → Knows before limit window history r
      → Knows now limit window history r
  later-Knows before now r le k = record {
    gone = k.gone;
    split = k.split;
    expired = expired_later before now le window k.gone k.expired;
    past = past_later before now le r.timestamps k.past;
    bounded = k.bounded;
    same_limit = k.same_limit;
    same_window = k.same_window;
  }

module _ {limit window : ℕ} {history : List ℕ} (pos : 0 < limit) where
  -- After the wait the limiter still knows every operation in the window, and has room.
  wait-Knows :
      (before : ℕ) (s : Slot) (r : RateLimiter)
      → Knows before limit window history r
      → IsTimely before s r
      → let r' = wait_for_slot s.started s.checked s.woken r in
        Knows s.woken limit window history r' × Room s.woken limit window r'.timestamps
  unfolding wait_for_slot
  wait-Knows before s r k t =
      let clean = cleanup_old_timestamps s.started r in
      let k₁ = cleanup-Knows before s.started r t.0 k in
      let past = past_later s.started s.checked t.1 clean.timestamps k₁.past in
      elim (Bool-cases (must_sleep s.checked clean clean.timestamps)) [
        | inl yes_sleep ↦
            let woke : s.checked + sleep_duration s.checked clean clean.timestamps ≤ s.woken =
              ground arith in
            let shorter =
              asleep s.checked s.woken clean clean.timestamps past
                (omega (arith, k₁.bounded, k₁.same_limit)) yes_sleep woke in
            rw yes_sleep (
              cleanup-Knows s.started s.woken clean (omega arith) k₁,
              inl (unfold cleanup_old_timestamps in omega (arith, shorter, k₁.same_limit)),
            )
        | inr no_sleep ↦
            let le : s.checked ≤ s.woken = omega arith in
            let room =
              not_asleep s.checked clean clean.timestamps (omega (arith, k₁.same_limit)) past
                no_sleep in
            rw no_sleep (
              later-Knows s.started s.woken clean (omega arith) k₁,
              Room-later s.checked s.woken le clean.timestamps k₁.same_limit k₁.same_window room,
            )
      ]

module _ {limit window : ℕ} {history : List ℕ} where
  record-Knows :
      (woken now : ℕ) (r : RateLimiter)
      → woken ≤ now
      → Knows woken limit window history r
      → Room woken limit window r.timestamps
      → Knows now limit window (history ++ now ∷ []) (record_operation now r)
  unfolding record_operation
  record-Knows woken now r le k room =
      let (gone, e, exp, short) =
        trim_split woken now limit window r.timestamps room k.bounded le in
      let still = expired_later woken now le window k.gone k.expired in
      let past = past_later woken now le r.timestamps k.past in
      rw k.same_limit (record {
        gone = k.gone ++ gone;
        split =
            ap (λ h. h ++ now ∷ []) k.split
            ∙ append_assoc k.gone r.timestamps (now ∷ [])
            ∙ ap (◌++◌ k.gone) e
            ∙ sym (append_assoc k.gone gone _);
        expired = All-append (λ t. t + window ≤ now) k.gone gone still exp;
        past =
            trim-past now limit (r.timestamps ++ now ∷ [])
              (All-append (λ t. t ≤ now) r.timestamps (now ∷ []) past (le_refl now, tt));
        bounded = short;
        same_limit = refl;
        same_window = k.same_window;
      })

  Knows-count :
      (now : ℕ) (r : RateLimiter)
      → Knows now limit window history r
      → count (in_window now window) history ≤ limit
  Knows-count now r k = omega (
    arith,
    ap (count (in_window now window)) k.split,
    count-append (in_window now window) k.gone r.timestamps,
    count-expired now window k.gone k.expired,
    count-le-length (in_window now window) r.timestamps,
    k.bounded,
  )

pub last_time : ℕ → List Slot → ℕ
last_time now [] = now
last_time now (s ∷ slots) = last_time s.recorded slots

perform_all-Knows :
    {limit window : ℕ} (history : List ℕ) (before : ℕ) (slots : List Slot) (r : RateLimiter)
    → 0 < limit
    → Knows before limit window history r
    → AllTimely before slots r
    → Knows
        (last_time before slots)
        limit
        window
        (history ++ recorded_times slots)
        (perform_all slots r)
unfolding perform_all last_time
perform_all-Knows history before [] r pos k t = rw append-nil k
perform_all-Knows history before (s ∷ slots) r pos k t =
    let (waited, room) = wait-Knows pos before s r k t.0 in
    let done = record-Knows s.woken s.recorded _ (omega arith) waited room in
    rw (append_assoc history (s.recorded ∷ []) (recorded_times slots)) at
      (perform_all-Knows (history ++ s.recorded ∷ []) s.recorded slots (perform s r) pos done t.1)

-- Start with a new limiter whose limit is not zero, and perform operations one after another,
-- each after waiting for a slot. When the last of them is recorded, at most `rate_limit` of all
-- the operations fall in the window that ends there. (Any operation is the last of a shorter
-- history.)
pub perform_all_limited :
    (limit window start : ℕ) (slots : List Slot)
    → 0 < limit
    → AllTimely start slots (with_window limit window)
    → count (in_window (last_time start slots) window) (recorded_times slots) ≤ limit
unfolding with_window
perform_all_limited limit window start slots pos t = Knows-count (last_time start slots) _ (
    perform_all-Knows [] start slots (with_window limit window) pos
      (record {
        gone = [];
        split = refl;
        expired = tt;
        past = tt;
        bounded = omega arith;
        same_limit = refl;
        same_window = refl;
      })
      t)
