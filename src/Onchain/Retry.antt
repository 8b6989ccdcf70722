-- ===== src/Onchain/Retry.antt =====
-- The attempts of `send_transaction_with_retry`.
use Prim.Native.String.{String}
use vendor.Base.{
  ℕ, zero, suc, ◌<◌, ◌≡◌, refl, sym, ap, ◌∙◌, ◌⊎◌, inl, inr, [], ◌∷◌, ◌++◌, Option, none, some,
  true, Result, ok, err, is_err, subst, unwrap_or, replicate, append_assoc, append-nil, arith,
  Result-cases,
}
use vendor.Onchain.{
  TxReceipt, Receipt, receipt_of, TransactionRequest, Sent, Provider, SubmitterConfig,
  try_send_transaction, retry_loop, send_transaction_with_retry,
}

-- An attempt after what was sent before fails: the provider refuses the transaction, or has no
-- receipt of it.
abbrev pub Fails : Provider → TransactionRequest → Sent → Type 0
Fails provider tx sent =
    ((e : String) × (provider.send_transaction sent tx ≡ err e))
    ⊎ ((tx_hash : String) × (provider.send_transaction sent tx ≡ ok tx_hash)
        × (e : String) × (provider.get_receipt sent tx_hash ≡ err e))

-- An attempt succeeds: the provider takes the transaction and has a receipt of it, from which the
-- receipt that is kept is made. Nothing is asked of its status.
abbrev pub Succeeds : Provider → TransactionRequest → TxReceipt → Sent → Type 0
Succeeds provider tx kept sent =
    (tx_hash : String) × (provider.send_transaction sent tx ≡ ok tx_hash)
    × (receipt : Receipt) × (provider.get_receipt sent tx_hash ≡ ok receipt)
    × (kept ≡ record {
      tx_hash = tx_hash;
      block_number = unwrap_or receipt.block_number 0;
      gas_used = receipt.gas_used;
      status = receipt.status;
    })

-- The first attempt that succeeds, number `k` from zero, is the last one made, and there is one; or
-- all `n` are made and fail.
abbrev pub FirstSuccess :
    Provider → ℕ → TransactionRequest → Sent → Result TxReceipt String × Sent → Type 0
FirstSuccess provider n tx sent out =
    ((k : ℕ) × (receipt : TxReceipt) × (k < n)
      × ((j : ℕ) → j < k → Fails provider tx (sent ++ replicate j tx))
      × Succeeds provider tx receipt (sent ++ replicate k tx)
      × (out ≡ (ok receipt, sent ++ replicate (suc k) tx)))
    ⊎ (((j : ℕ) → j < n → Fails provider tx (sent ++ replicate j tx))
        × (is_err out.0 ≡ true)
        × (out.1 ≡ sent ++ replicate n tx))

module _ (provider : Provider) (tx : TransactionRequest) where
  attempt-cases :
      (sent : Sent)
      → ((receipt : TxReceipt) × (try_send_transaction provider tx sent ≡ ok receipt)
          × Succeeds provider tx receipt sent)
        ⊎ ((e : String) × (try_send_transaction provider tx sent ≡ err e) × Fails provider tx sent)
  unfolding try_send_transaction receipt_of
  attempt-cases sent = elim (Result-cases (provider.send_transaction sent tx)) [
    | inr (e, refused) ↦ inr (e, rw (refused, try_send_transaction), inl (e, refused))
    | inl (tx_hash, taken) ↦ elim (Result-cases (provider.get_receipt sent tx_hash)) [
      | inr (e, lost) ↦
          inr (e, rw (taken, try_send_transaction, lost), inr (tx_hash, taken, e, lost))
      | inl (receipt, there) ↦ inl (
        receipt_of tx_hash receipt,
        rw (taken, try_send_transaction, there),
        (tx_hash, taken, receipt, there, refl),
      )
    ]
  ]

  all_fail-shift :
      (sent : Sent) (n : ℕ)
      → Fails provider tx sent
      → ((j : ℕ) → j < n → Fails provider tx ((sent ++ tx ∷ []) ++ replicate j tx))
      → (j : ℕ) → j < suc n
      → Fails provider tx (sent ++ replicate j tx)
  all_fail-shift sent n first rest zero h = subst (Fails provider tx) (sym (append-nil sent)) first
  all_fail-shift sent n first rest (suc j) h =
      subst (Fails provider tx) (append_assoc sent (tx ∷ []) (replicate j tx))
        (rest j (omega arith))

  FirstSuccess-shift :
      (sent : Sent) (n : ℕ) (out : Result TxReceipt String × Sent)
      → Fails provider tx sent
      → FirstSuccess provider n tx (sent ++ tx ∷ []) out
      → FirstSuccess provider (suc n) tx sent out
  FirstSuccess-shift sent n out first (inl (k, receipt, below, before, hit, result)) = inl (
    suc k,
    receipt,
    omega arith,
    all_fail-shift sent k first before,
    subst (Succeeds provider tx receipt) (append_assoc sent (tx ∷ []) (replicate k tx)) hit,
    result ∙ ap (λ l. (ok receipt, l)) (append_assoc sent (tx ∷ []) (replicate (suc k) tx)),
  )
  FirstSuccess-shift sent n out first (inr (all, failed, sent')) = inr (
    all_fail-shift sent n first all,
    failed,
    sent' ∙ append_assoc sent (tx ∷ []) (replicate n tx),
  )

  retry_loop_lem :
      (n : ℕ) (last_error : Option String) (sent : Sent)
      → FirstSuccess provider n tx sent (retry_loop provider n tx last_error sent)
  unfolding retry_loop
  retry_loop_lem zero last_error sent = inr (λ j h. elim h [ ], refl, sym (append-nil sent))
  retry_loop_lem (suc n) last_error sent = elim (attempt-cases sent) [
    | inl (receipt, e, success) ↦ inl (
      0,
      receipt,
      omega arith,
      λ j h. elim h [ ],
      subst (Succeeds provider tx receipt) (sym (append-nil sent)) success,
      rw (e, retry_loop),
    )
    | inr (error, e, failure) ↦
        rw (e, retry_loop)
          (FirstSuccess-shift sent n _ failure (retry_loop_lem n (some error) (sent ++ tx ∷ [])))
  ]

-- A transaction is tried until the provider takes it and has a receipt of it, at most
-- `retry_attempts` times: the result is the receipt of the first attempt of this kind, whatever its
-- status, and an error where there is none. The attempts up to that one, or all of them, are what
-- was sent.
pub send_transaction_with_retry-FirstSuccess :
    (provider : Provider) (config : SubmitterConfig) (tx : TransactionRequest) (sent : Sent)
    → FirstSuccess provider config.retry_attempts tx sent
        (send_transaction_with_retry provider config tx sent)
unfolding send_transaction_with_retry
send_transaction_with_retry-FirstSuccess provider config tx sent =
    retry_loop_lem provider tx config.retry_attempts none sent
