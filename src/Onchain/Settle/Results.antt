-- ===== src/Onchain/Settle/Results.antt =====
-- What a settlement reports.
use Prim.Native.String.{String}
use vendor.Base.{
  ℕ, ◌+◌, ◌≡◌, refl, ap, ◌∙◌, List, [], ◌∷◌, none, some, true, false, not, Result, ok, err, is_ok,
  is_err, arith, map, length, count, if◌then◌else◌, is_empty_list,
}
use vendor.Onchain.{
  PendingOrder, SettlementPayload, TxReceipt, Sent, OnchainSubmitter, OrderResults,
  SettlementResult, total_orders, quote_update_succeeded,
}
use vendor.Onchain.Settle.{
  submit, update_multiple_quotes, process_pending_buy_order, process_pending_sell_order,
  settle_quotes, settle_buys, settle_sells, settle_batch, dry_run_receipt,
}

abbrev ids : List PendingOrder → List ℕ
ids orders = map (λ o. o.index_id) orders

abbrev result_ids : OrderResults → List ℕ
result_ids results = map (λ (r : ℕ × Result TxReceipt String). r.0) results

abbrev good : OrderResults → ℕ
good results = count (λ (r : ℕ × Result TxReceipt String). is_ok r.1) results

abbrev bad : OrderResults → ℕ
bad results = count (λ (r : ℕ × Result TxReceipt String). is_err r.1) results

good-add-bad : (results : OrderResults) → good results + bad results ≡ length results
good-add-bad [] = omega arith
good-add-bad ((i, ok r) ∷ results) = omega (arith, good-add-bad results)
good-add-bad ((i, err e) ∷ results) = omega (arith, good-add-bad results)

length-eq_of_ids :
    (orders : List PendingOrder) (results : OrderResults)
    → result_ids results ≡ ids orders
    → length results ≡ length orders
length-eq_of_ids [] [] h = refl
length-eq_of_ids [] (r ∷ rs) h = cc
length-eq_of_ids (o ∷ os) [] h = cc
length-eq_of_ids (o ∷ os) (r ∷ rs) h = ground (arith, length-eq_of_ids os rs)

-- What the results say of the payload.
pub record Reports (payload : SettlementPayload) (r : SettlementResult) : Type 0 where
  pub buys_in_order : result_ids r.buy_order_results ≡ ids payload.buy_orders
  pub sells_in_order : result_ids r.sell_order_results ≡ ids payload.sell_orders
  pub succeeded : r.total_succeeded ≡ good r.buy_order_results + good r.sell_order_results
  pub all_counted : r.total_succeeded + r.total_failed ≡ total_orders payload
  pub same_batch : r.batch_id ≡ payload.batch_id

module _ (decimal : ℕ → String) {Wallet : Type 0} (s : OnchainSubmitter Wallet) where
  settle_buys-ids :
      (orders : List PendingOrder) (sent : Sent)
      → result_ids (settle_buys decimal s orders sent).0 ≡ ids orders
  unfolding settle_buys
  settle_buys-ids [] sent = refl
  settle_buys-ids (o ∷ os) sent = ap (◌∷◌ o.index_id) (settle_buys-ids os _)

  settle_sells-ids :
      (orders : List PendingOrder) (sent : Sent)
      → result_ids (settle_sells decimal s orders sent).0 ≡ ids orders
  unfolding settle_sells
  settle_sells-ids [] sent = refl
  settle_sells-ids (o ∷ os) sent = ap (◌∷◌ o.index_id) (settle_sells-ids os _)

  -- A settlement never fails as a whole, whatever the provider does: its result has one entry for
  -- each buy order and each sell order, in the order of the payload, and every order is counted
  -- once, as succeeded where its transaction has a receipt and as failed where it has none.
  pub settle_batch-Reports :
      (elapsed_ms : ℕ) (payload : SettlementPayload) (sent : Sent)
      → (r : SettlementResult) × ((settle_batch decimal s elapsed_ms payload sent).0 ≡ ok r)
        × Reports payload r
  unfolding settle_batch total_orders
  settle_batch-Reports elapsed_ms payload sent =
      let quoted = (settle_quotes decimal s payload.index_ids sent).1 in
      let buys = settle_buys decimal s payload.buy_orders quoted in
      let sells = settle_sells decimal s payload.sell_orders buys.1 in
      let b = settle_buys-ids payload.buy_orders quoted in
      let c = settle_sells-ids payload.sell_orders buys.1 in
      (
        _,
        refl,
        record {
          buys_in_order = b;
          sells_in_order = c;
          succeeded = refl;
          all_counted = omega (
            arith,
            good-add-bad buys.0,
            good-add-bad sells.0,
            length-eq_of_ids payload.buy_orders buys.0 b,
            length-eq_of_ids payload.sell_orders sells.0 c,
          );
          same_batch = refl;
        },
      )

  module _ (dry : s.config.dry_run ≡ true) where
    settle_quotes-dry :
        (index_ids : List ℕ) (sent : Sent)
        → settle_quotes decimal s index_ids sent ≡ (
          if is_empty_list index_ids then none else some (dry_run_receipt "dry-run-quote-update"),
          sent,
        )
    unfolding settle_quotes update_multiple_quotes submit
    settle_quotes-dry [] sent = refl
    settle_quotes-dry (i ∷ is) sent = rw dry

    settle_quotes-succeeds :
        (index_ids : List ℕ) (sent : Sent)
        → elim (settle_quotes decimal s index_ids sent).0 [ none ↦ false | some tx ↦ tx.status ]
          ≡ not (is_empty_list index_ids)
    unfolding settle_quotes update_multiple_quotes submit
    settle_quotes-succeeds [] sent = refl
    settle_quotes-succeeds (i ∷ is) sent = rw dry

    settle_buys-dry :
        (orders : List PendingOrder) (sent : Sent)
        → (bad (settle_buys decimal s orders sent).0 ≡ 0)
          × ((settle_buys decimal s orders sent).1 ≡ sent)
    unfolding settle_buys process_pending_buy_order submit
    settle_buys-dry [] sent = (refl, refl)
    settle_buys-dry (o ∷ os) sent = rw dry (settle_buys-dry os sent)

    settle_sells-dry :
        (orders : List PendingOrder) (sent : Sent)
        → (bad (settle_sells decimal s orders sent).0 ≡ 0)
          × ((settle_sells decimal s orders sent).1 ≡ sent)
    unfolding settle_sells process_pending_sell_order submit
    settle_sells-dry [] sent = (refl, refl)
    settle_sells-dry (o ∷ os) sent = rw dry (settle_sells-dry os sent)

    -- A dry run sends nothing, with or without a provider; it reports every order as succeeded, and
    -- the quotes as updated where there are indices.
    pub settle_batch-dry :
        (elapsed_ms : ℕ) (payload : SettlementPayload) (sent : Sent)
        → ((settle_batch decimal s elapsed_ms payload sent).1 ≡ sent)
          × ((r : SettlementResult) × ((settle_batch decimal s elapsed_ms payload sent).0 ≡ ok r)
              × (r.total_failed ≡ 0)
              × (r.total_succeeded ≡ total_orders payload)
              × (quote_update_succeeded r ≡ not (is_empty_list payload.index_ids)))
    unfolding settle_batch total_orders quote_update_succeeded
    settle_batch-dry elapsed_ms payload sent =
        let quoted = (settle_quotes decimal s payload.index_ids sent).1 in
        let buys = settle_buys decimal s payload.buy_orders quoted in
        let sells = settle_sells decimal s payload.sell_orders buys.1 in
        let q = settle_quotes-dry payload.index_ids sent in
        let b = settle_buys-dry payload.buy_orders quoted in
        let c = settle_sells-dry payload.sell_orders buys.1 in
        let failed : bad buys.0 + bad sells.0 ≡ 0 = omega (arith, b.0, c.0) in
        (
          c.1 ∙ b.1 ∙ ap (λ o. o.1) q,
          (
            _,
            refl,
            failed,
            omega (
              arith,
              good-add-bad buys.0,
              good-add-bad sells.0,
              b.0,
              c.0,
              length-eq_of_ids payload.buy_orders buys.0
                  (settle_buys-ids payload.buy_orders quoted),
              length-eq_of_ids payload.sell_orders sells.0
                  (settle_sells-ids payload.sell_orders buys.1),
            ),
            settle_quotes-succeeds payload.index_ids sent,
          ),
        )
