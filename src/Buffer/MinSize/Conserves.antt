-- ===== src/Buffer/MinSize/Conserves.antt =====
-- `MinSizeHandler` (bin/vendor/src/buffer/min_size_handler.rs): what one call does to the amounts
-- that it holds.
use Prim.Native.String.{String}
use vendor.Base.{
  ℕ, ◌+◌, ◌≡◌, refl, ap, ◌∙◌, Option, none, some, ltb, leb, if◌then◌else◌, unwrap_or, arith,
}
use vendor.Base.Map.{string_eq, ◌==◌, lookup, lookup-insert, beq_refl}
use vendor.Uint256.{Uint256}
use vendor.Amount.{IsAmount}
use vendor.Amount.Arith.{checked_add_lem}
use vendor.Buffer.MinSize.{
  OrderAction, execute, buffer, BufferedPosition, MinSizeHandler, process_order, flush_buffer,
  flush_found, get_min_size, settle, add_order, put_position, emptied, position_or_new,
}

-- The amount held back for a symbol.
abbrev pub held : String → MinSizeHandler → ℕ
held symbol h = elim (lookup symbol h.buffer_positions) [ none ↦ 0 | some p ↦ p.quantity ]

-- The amount that an action sends to the exchange.
abbrev pub executed : OrderAction → ℕ
executed (execute q) = q
executed buffer = 0

abbrev pub flushed : Option ℕ → ℕ
flushed o = unwrap_or o 0

pub held-put :
    (symbol j : String) (p : BufferedPosition) (h : MinSizeHandler)
    → held j (put_position symbol p h) ≡ (if symbol == j then p.quantity else held j h)
held-put symbol j p h = ground (arith, lookup-insert symbol j p h.buffer_positions)

position-quantity :
    (now : ℕ) (symbol : String) (h : MinSizeHandler)
    → (position_or_new now symbol h).quantity ≡ held symbol h
position-quantity now symbol h = ground arith

-- Whatever is put for one symbol, the others hold what they held.
pub settle_lem :
    (now : ℕ) (symbol j : String) (min_size : ℕ) (p : BufferedPosition) (h : MinSizeHandler)
    {total : ℕ}
    → p.quantity ≡ total
    → let (action, h') = settle now symbol min_size p h in
      (action ≡ (if leb min_size total then execute total else buffer))
      × (held j h' ≡ (if symbol == j then if leb min_size total then 0 else total else held j h))
unfolding settle
settle_lem now symbol j min_size p h e =
    ground (arith, held-put symbol j p h, held-put symbol j (emptied now p) h)

module _ ⦃u : Uint256⦄ where
  add_order-quantity :
      (quantity : ℕ) (p : BufferedPosition)
      → IsAmount (p.quantity + quantity)
      → (add_order quantity p).quantity ≡ p.quantity + quantity
  unfolding add_order
  add_order-quantity quantity p fit = ground (arith, checked_add_lem p.quantity quantity)

  -- An order that does not overflow its position is added to what its symbol holds: at the
  -- minimum or above, all of that is executed and nothing stays; below, all of it stays and
  -- nothing is executed. Every other symbol holds what it held.
  pub process_order_lem :
      (now : ℕ) (symbol j : String) (quantity : ℕ) (h : MinSizeHandler)
      → IsAmount (held symbol h + quantity)
      → let total = held symbol h + quantity in
        let (action, h') = process_order now symbol quantity h in
        (action ≡ (if leb (get_min_size symbol h) total then execute total else buffer))
        × (held j h' ≡ (
            if symbol == j
            then if leb (get_min_size symbol h) total then 0 else total
            else held j h))
  unfolding process_order
  process_order_lem now symbol j quantity h fit =
      let p = position_or_new now symbol h in
      let start = position-quantity now symbol h in
      let added : (add_order quantity p).quantity ≡ held symbol h + quantity =
        add_order-quantity quantity p (rw start fit) ∙ ap (λ q. q + quantity) start in
      settle_lem now symbol j (get_min_size symbol h) (add_order quantity p) h added

  -- An order that does not overflow its position moves its whole quantity into the sum of what
  -- is executed and what is held.
  pub process_order_conserves :
      (now : ℕ) (symbol : String) (quantity : ℕ) (h : MinSizeHandler)
      → IsAmount (held symbol h + quantity)
      → let (action, h') = process_order now symbol quantity h in
        executed action + held symbol h' ≡ held symbol h + quantity
  process_order_conserves now symbol quantity h fit =
      ground (arith, beq_refl symbol, process_order_lem now symbol symbol quantity h fit)

flush_found_lem :
    (now : ℕ) (symbol j : String) (o : Option BufferedPosition) (h : MinSizeHandler)
    → lookup symbol h.buffer_positions ≡ o
    → let (result, h') = flush_found now symbol o h in
      (result ≡ (if ltb 0 (held symbol h) then some (held symbol h) else none))
      × (held j h' ≡ (if symbol == j then 0 else held j h))
unfolding flush_found
flush_found_lem now symbol j none h e = ground (arith, string_eq.same_iff symbol j)
flush_found_lem now symbol j (some p) h e =
    ground (arith, string_eq.same_iff symbol j, held-put symbol j (emptied now p) h)

-- A flush hands out all that the symbol holds, if that is anything, and leaves it empty; every
-- other symbol holds what it held.
pub flush_buffer_lem :
    (now : ℕ) (symbol j : String) (h : MinSizeHandler)
    → let (result, h') = flush_buffer now symbol h in
      (result ≡ (if ltb 0 (held symbol h) then some (held symbol h) else none))
      × (held j h' ≡ (if symbol == j then 0 else held j h))
unfolding flush_buffer
flush_buffer_lem now symbol j h =
    flush_found_lem now symbol j (lookup symbol h.buffer_positions) h refl
