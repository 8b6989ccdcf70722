-- ===== src/Buffer/MinSize/Restores.antt =====
-- `MinSizeHandler` (bin/vendor/src/buffer/min_size_handler.rs): saving and restoring.
use Prim.Native.String.{String}
use vendor.Base.{
  ℕ, ◌≡◌, refl, ◌∙◌, [], ◌∷◌, Option, none, some, ltb, if◌then◌else◌, unwrap_or, arith, map, filter,
}
use vendor.Base.Map.{Map, string_eq, lookup, Distinct}
use vendor.Buffer.MinSize.{
  BufferedPosition, MinSizeHandler, is_held, quantity_of, get_buffered_quantities,
  restore_buffered_quantities, position_or_new,
}
use vendor.Buffer.MinSize.Conserves.{held, held-put}

abbrev positive : ℕ → Option ℕ
positive q = if ltb 0 q then some q else none

lookup-saved :
    (j : String) (m : Map String BufferedPosition)
    → Distinct m
    → lookup j (map quantity_of (filter is_held m))
      ≡ positive (elim (lookup j m) [ none ↦ 0 | some p ↦ p.quantity ])
lookup-saved j [] d = refl
lookup-saved j ((symbol, p) ∷ m) d =
    ground (arith, string_eq.same_iff symbol j, lookup-saved j m d.1)

held-restore :
    (now : ℕ) (j : String) (qs : Map String ℕ) (h : MinSizeHandler)
    → Distinct qs
    → held j (restore_buffered_quantities now qs h) ≡ unwrap_or (lookup j qs) (held j h)
unfolding restore_buffered_quantities
held-restore now j [] h d = refl
held-restore now j ((symbol, q) ∷ qs) h d =
    let p = position_or_new now symbol h in
    let p' : BufferedPosition = record p { quantity = q; order_count = 1 } in
    held-restore now j qs _ d.1
    ∙ ground (arith, string_eq.same_iff symbol j, held-put symbol j p' h)

saved-Distinct :
    (m : Map String BufferedPosition) → Distinct m → Distinct (map quantity_of (filter is_held m))
saved-Distinct [] d = tt
saved-Distinct ((symbol, p) ∷ m) d = ground (arith, lookup-saved symbol m d.1, saved-Distinct m d.1)

-- Restoring the saved quantities into a handler that holds nothing gives every symbol the amount
-- that it held.
pub restore-get_buffered_quantities :
    (now : ℕ) (j : String) (h fresh : MinSizeHandler)
    → Distinct h.buffer_positions
    → held j fresh ≡ 0
    → held j (restore_buffered_quantities now (get_buffered_quantities h) fresh) ≡ held j h
unfolding get_buffered_quantities
restore-get_buffered_quantities now j h fresh d e =
    held-restore now j _ fresh (saved-Distinct h.buffer_positions d)
    ∙ ground (arith, lookup-saved j h.buffer_positions d)
