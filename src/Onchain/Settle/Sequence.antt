-- ===== src/Onchain/Settle/Sequence.antt =====
-- What a settlement sends, and in which order.
use Prim.Native.String.{String}
use vendor.Base.{
  ℕ, suc, ◌<◌, ◌≤◌, ◌≡◌, refl, sym, ap, ◌∙◌, inl, inr, List, [], ◌∷◌, ◌++◌, some, false, Result,
  replicate, append_assoc, append-nil, arith, map, if◌then◌else◌, is_empty_list,
}
use vendor.Onchain.{
  PendingOrder, SettlementPayload, TxReceipt, TransactionRequest, Sent, Provider, SubmitterConfig,
  OnchainSubmitter, update_multiple_index_quotes_call, process_pending_buy_order_call,
  process_pending_sell_order_call, Call,
}
use vendor.Onchain.Settle.{
  submit, to_castle, max_size, update_multiple_quotes, process_pending_buy_order,
  process_pending_sell_order, settle_quotes, settle_buys, settle_sells, settle_batch,
}
use vendor.Onchain.Retry.{send_transaction_with_retry-FirstSuccess, FirstSuccess}

-- `added` is the transactions in order, each repeated from once to `n` times.
abbrev pub Repeats : ℕ → List TransactionRequest → Sent → Type 0
Repeats n [] added = added ≡ []
Repeats n (tx ∷ txs) added =
    (k : ℕ) × (rest : Sent) × (0 < k)
    × (k ≤ n)
    × (added ≡ replicate k tx ++ rest)
    × Repeats n txs rest

-- The sequence is added to what was sent.
abbrev pub Adds : ℕ → List TransactionRequest → Sent → Sent → Type 0
Adds n txs sent sent' = (added : Sent) × (sent' ≡ sent ++ added) × Repeats n txs added

Repeats-append :
    (n : ℕ) (xs ys : List TransactionRequest) (a b : Sent)
    → Repeats n xs a
    → Repeats n ys b
    → Repeats n (xs ++ ys) (a ++ b)
Repeats-append n [] ys a b p q = rw p q
Repeats-append n (x ∷ xs) ys a b (k, rest, low, high, e, more) q = (
  k,
  rest ++ b,
  low,
  high,
  ap (λ l. l ++ b) e ∙ append_assoc (replicate k x) rest b,
  Repeats-append n xs ys rest b more q,
)

pub Adds-append :
    (n : ℕ) (xs ys : List TransactionRequest) (s t u : Sent)
    → Adds n xs s t
    → Adds n ys t u
    → Adds n (xs ++ ys) s u
Adds-append n xs ys s t u (a, e, p) (b, f, q) =
    (a ++ b, f ∙ ap (λ l. l ++ b) e ∙ append_assoc s a b, Repeats-append n xs ys a b p q)

Adds-none : (n : ℕ) (s : Sent) → Adds n [] s s
Adds-none n s = ([], sym (append-nil s), refl)

FirstSuccess-Adds :
    (provider : Provider) (n : ℕ) (tx : TransactionRequest) (sent : Sent)
    (out : Result TxReceipt String × Sent)
    → 0 < n
    → FirstSuccess provider n tx sent out
    → Adds n (tx ∷ []) sent out.1
FirstSuccess-Adds provider n tx sent out h (inl (k, receipt, below, before, hit, result)) = (
  replicate (suc k) tx,
  ap (λ o. o.1) result,
  (suc k, [], omega arith, omega arith, sym (append-nil (replicate (suc k) tx)), refl),
)
FirstSuccess-Adds provider n tx sent out h (inr (all, failed, sent')) =
    (replicate n tx, sent', (n, [], h, omega arith, sym (append-nil (replicate n tx)), refl))

-- The transactions of a payload: the quotes if there are indices, the buys, the sells.
abbrev pub quote_tx : SubmitterConfig → List ℕ → List TransactionRequest
quote_tx c index_ids =
    if is_empty_list index_ids
    then []
    else to_castle c (update_multiple_index_quotes_call c.vendor_id index_ids) ∷ []

abbrev pub buy_tx : SubmitterConfig → PendingOrder → TransactionRequest
buy_tx c o =
    to_castle c
      (process_pending_buy_order_call c.vendor_id o.index_id o.trader_address (max_size c o))

abbrev pub sell_tx : SubmitterConfig → PendingOrder → TransactionRequest
sell_tx c o =
    to_castle c
      (process_pending_sell_order_call c.vendor_id o.index_id o.trader_address (max_size c o))

abbrev pub planned : SubmitterConfig → SettlementPayload → List TransactionRequest
planned c p =
    quote_tx c p.index_ids ++ (map (buy_tx c) p.buy_orders ++ map (sell_tx c) p.sell_orders)

module _ (decimal : ℕ → String) {Wallet : Type 0} (s : OnchainSubmitter Wallet)
    (provider : Provider) (live : s.config.dry_run ≡ false) (there : s.provider ≡ some provider)
    (tries : 0 < s.config.retry_attempts) where
  pub submit-Adds :
      (dry_hash : String) (call : Call) (sent : Sent)
      → Adds s.config.retry_attempts
          (to_castle s.config call ∷ [])
          sent
          (submit decimal s dry_hash call sent).1
  unfolding submit
  submit-Adds dry_hash call sent =
      rw (live, there, submit)
        (FirstSuccess-Adds provider s.config.retry_attempts (to_castle s.config call) sent _ tries (
          send_transaction_with_retry-FirstSuccess provider s.config (to_castle s.config call)
            sent))

  settle_quotes-Adds :
      (index_ids : List ℕ) (sent : Sent)
      → Adds s.config.retry_attempts
          (quote_tx s.config index_ids)
          sent
          (settle_quotes decimal s index_ids sent).1
  unfolding settle_quotes update_multiple_quotes
  settle_quotes-Adds [] sent = Adds-none s.config.retry_attempts sent
  settle_quotes-Adds (i ∷ is) sent = submit-Adds _ _ sent

  settle_buys-Adds :
      (orders : List PendingOrder) (sent : Sent)
      → Adds s.config.retry_attempts
          (map (buy_tx s.config) orders)
          sent
          (settle_buys decimal s orders sent).1
  unfolding settle_buys process_pending_buy_order
  settle_buys-Adds [] sent = Adds-none s.config.retry_attempts sent
  settle_buys-Adds (o ∷ os) sent =
      Adds-append s.config.retry_attempts (buy_tx s.config o ∷ []) (map (buy_tx s.config) os) sent _
        _ (submit-Adds _ _ sent) (settle_buys-Adds os _)

  settle_sells-Adds :
      (orders : List PendingOrder) (sent : Sent)
      → Adds s.config.retry_attempts
          (map (sell_tx s.config) orders)
          sent
          (settle_sells decimal s orders sent).1
  unfolding settle_sells process_pending_sell_order
  settle_sells-Adds [] sent = Adds-none s.config.retry_attempts sent
  settle_sells-Adds (o ∷ os) sent =
      Adds-append s.config.retry_attempts (sell_tx s.config o ∷ []) (map (sell_tx s.config) os) sent
        _ _ (submit-Adds _ _ sent) (settle_sells-Adds os _)

  -- With a provider, at least one attempt and no dry run, a settlement sends the quotes of the
  -- indices, if there are any, then a transaction for each buy order and then one for each sell
  -- order, each in the order of the payload and each from once to `retry_attempts` times; no
  -- failure, also none of the quotes, stops it.
  pub settle_batch-Adds :
      (elapsed_ms : ℕ) (payload : SettlementPayload) (sent : Sent)
      → Adds s.config.retry_attempts
          (planned s.config payload)
          sent
          (settle_batch decimal s elapsed_ms payload sent).1
  unfolding settle_batch
  settle_batch-Adds elapsed_ms payload sent =
      Adds-append s.config.retry_attempts (quote_tx s.config payload.index_ids) _ sent _ _
        (settle_quotes-Adds payload.index_ids sent)
        (Adds-append s.config.retry_attempts (map (buy_tx s.config) payload.buy_orders)
          (map (sell_tx s.config) payload.sell_orders) _ _ _ (settle_buys-Adds payload.buy_orders _)
          (settle_sells-Adds payload.sell_orders _))
