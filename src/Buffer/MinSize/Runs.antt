-- ===== src/Buffer/MinSize/Runs.antt =====
-- Whole histories of orders and flushes, as seen for one symbol.
use Prim.Native.String.{String}
use vendor.Base.{
  ℕ, ◌+◌, ◌≡◌, refl, List, [], ◌∷◌, false, if◌then◌else◌, arith, Bool-cases, inl, inr,
}
use vendor.Base.Map.{◌==◌, string_eq}
use vendor.Uint256.{Uint256}
use vendor.Amount.{IsAmount}
use vendor.Buffer.MinSize.{
  MinSizeHandler, process_order, flush_buffer, get_min_size, position_or_new, add_order,
}
use vendor.Buffer.MinSize.Conserves.{
  held, executed, flushed, settle_lem, process_order_conserves, flush_buffer_lem,
}

-- An order for a symbol, or the flush of a stale one; each with its time.
pub data Event : Type 0 where
  receives : ℕ → String → ℕ → Event
  flushes : ℕ → String → Event

-- The quantity that an event brings in for the symbol `j`.
unfoldable pub received : String → Event → ℕ
received j (receives now symbol quantity) = if symbol == j then quantity else 0
received j (flushes now symbol) = 0

unfoldable pub all_received : String → List Event → ℕ
unfolding received
all_received j [] = 0
all_received j (e ∷ es) = received j e + all_received j es

module _ ⦃u : Uint256⦄ where
  pub step : MinSizeHandler → Event → MinSizeHandler
  step h (receives now symbol quantity) = (process_order now symbol quantity h).1
  step h (flushes now symbol) = (flush_buffer now symbol h).1

  -- The quantity that it sends out for `j`.
  pub sent : String → MinSizeHandler → Event → ℕ
  sent j h (receives now symbol quantity) =
      if symbol == j then executed (process_order now symbol quantity h).0 else 0
  sent j h (flushes now symbol) = if symbol == j then flushed (flush_buffer now symbol h).0 else 0

  pub run : MinSizeHandler → List Event → MinSizeHandler
  unfolding step
  run h [] = h
  run h (e ∷ es) = run (step h e) es

  pub all_sent : String → MinSizeHandler → List Event → ℕ
  unfolding sent step
  all_sent j h [] = 0
  all_sent j h (e ∷ es) = sent j h e + all_sent j (step h e) es

  other_symbol :
      (now : ℕ) (symbol j : String) (quantity : ℕ) (h : MinSizeHandler)
      → (symbol == j) ≡ false
      → held j (process_order now symbol quantity h).1 ≡ held j h
  unfolding process_order
  other_symbol now symbol j quantity h ne = ground (
    arith,
    settle_lem now symbol j (get_min_size symbol h)
        (add_order quantity (position_or_new now symbol h)) h refl,
  )

  step-conserves :
      (j : String) (h : MinSizeHandler) (e : Event)
      → IsAmount (held j h + received j e)
      → sent j h e + held j (step h e) ≡ held j h + received j e
  unfolding step sent received
  step-conserves j h (receives now symbol quantity) fit = elim (Bool-cases (symbol == j)) [
    | inl same ↦
        ground (arith, string_eq.same_iff symbol j, process_order_conserves now symbol quantity h)
    | inr differs ↦ ground (arith, other_symbol now symbol j quantity h differs)
  ]
  step-conserves j h (flushes now symbol) fit =
      ground (arith, string_eq.same_iff symbol j, flush_buffer_lem now symbol j h)

  -- For every symbol, what a history sends out and leaves held is what was held and came in, as
  -- long as the amounts for that symbol fit an `Amount` together; other symbols may overflow.
  pub run-conserves :
      (j : String) (h : MinSizeHandler) (es : List Event)
      → IsAmount (held j h + all_received j es)
      → all_sent j h es + held j (run h es) ≡ held j h + all_received j es
  unfolding run all_sent all_received
  run-conserves j h [] fit = omega arith
  run-conserves j h (e ∷ es) fit =
      let one = step-conserves j h e (omega arith) in
      omega (arith, one, run-conserves j (step h e) es (omega (arith, one)))
