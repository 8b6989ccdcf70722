-- ===== src/Keeper/Claims/Threshold.antt =====
-- When a claim leads to an order.
use Prim.Native.String.{String, ◌++◌ as str_append}
use vendor.Base.{
  ℕ, ◌<◌, ◌≤◌, ◌≡◌, refl, ◌⊎◌, inl, inr, List, [], ◌∷◌, ◌++◌, some, true, false, leb, unwrap_or,
  Result, ok, err, arith, Result-cases, Bool-cases,
}
use vendor.Index.{get_index_assets}
use vendor.Chain.Events.{
  AcquisitionClaimEvent, DisposalClaimEvent, VaultEvent, buy, sell, acquired, disposed,
  acquisition_claimed, disposal_claimed,
}
use vendor.Onchain.{
  TxReceipt, Sent, Provider, TransactionRequest, is_dry_run, process_pending_buy_order_call,
  process_pending_sell_order_call,
}
use vendor.Onchain.Settle.{process_pending_buy_order, process_pending_sell_order, to_castle}
use vendor.Onchain.Settle.Sequence.{Adds, submit-Adds}
use vendor.Keeper.{UpdateMarketDataRequest, UpdateMarketDataResponse, Done}
use vendor.Keeper.Claims.{
  ClaimHandler, ClaimResult, processed, below_threshold, disabled, not_a_claim, error, max_u128,
  process_order, rebalance, correlation, handle_acquisition_claim, handle_disposal_claim, dispatch,
  handle_event,
}

module _ (decimal show_hash : ℕ → String) {Weight Wallet : Type 0}
    (h : ClaimHandler Weight Wallet) where
  -- What happens above the threshold. The request goes to the vendor; if the vendor fails, that is all.
  -- If it answers, a dry run is done, and otherwise the order is sent.
  abbrev pub Rebalanced :
      (index_id vendor_id remainder : ℕ)
      → UpdateMarketDataRequest
      → List TransactionRequest
      → Done
      → ClaimResult × Done
      → Type 0
  Rebalanced index_id vendor_id remainder request txs d out =
      (out.1.posted ≡ d.posted ++ request ∷ [])
      × (((e : String) × (h.vendor_client d.posted request ≡ err e)
            × (out.0 ≡ error index_id (str_append "Vendor update failed: " e))
            × (out.1.sent ≡ d.sent))
          ⊎ ((response : UpdateMarketDataResponse) × (h.vendor_client d.posted request
                ≡ ok response)
              × (((h.submitter.config.dry_run ≡ true)
                    × (out.1.sent ≡ d.sent)
                    × (out.0 ≡ processed index_id vendor_id remainder response.status))
                  ⊎ ((h.submitter.config.dry_run ≡ false)
                      × Adds h.submitter.config.retry_attempts txs d.sent out.1.sent
                      × ((out.0 ≡ processed index_id vendor_id remainder response.status)
                          ⊎ ((text : String) × (out.0 ≡ error index_id text)))))))

  -- The request and the order of a claim; the order has no limit on its size.
  abbrev pub request_for : String → (index_id tx_hash : ℕ) → UpdateMarketDataRequest
  request_for prefix index_id tx_hash = record {
    assets = unwrap_or (get_index_assets index_id h.index_mapper) [];
    batch_id = correlation decimal show_hash h prefix index_id tx_hash;
  }

  -- What the handler does with an event when it is enabled.
  abbrev pub Handled : VaultEvent → Done → ClaimResult × Done → Type 0
  Handled (acquisition_claimed e) d out =
      let threshold = h.config.claim_remainder_threshold in
      ((e.remain ≤ threshold)
        × (out ≡ (below_threshold e.index_id e.vendor_id e.remain threshold, d)))
      ⊎ ((threshold < e.remain)
          × Rebalanced e.index_id e.vendor_id e.remain
              (request_for "acq_claim:" e.index_id e.tx_hash)
              (to_castle h.submitter.config (
                  process_pending_buy_order_call h.submitter.config.vendor_id e.index_id
                    e.controller max_u128)
                ∷ [])
              d out)
  Handled (disposal_claimed e) d out =
      let threshold = h.config.claim_remainder_threshold in
      ((e.itp_remain ≤ threshold)
        × (out ≡ (below_threshold e.index_id e.vendor_id e.itp_remain threshold, d)))
      ⊎ ((threshold < e.itp_remain)
          × Rebalanced e.index_id e.vendor_id e.itp_remain
              (request_for "disp_claim:" e.index_id e.tx_hash)
              (to_castle h.submitter.config (
                  process_pending_sell_order_call h.submitter.config.vendor_id e.index_id
                    e.controller max_u128)
                ∷ [])
              d out)
  Handled _ d out = out ≡ (not_a_claim, d)

  module _ (provider : Provider) (there : h.submitter.provider ≡ some provider)
      (tries : 0 < h.submitter.config.retry_attempts) where
    rebalance-Rebalanced :
        (index_id vendor_id remainder : ℕ) (correlation_id failure : String)
        (send : Sent → Result TxReceipt String × Sent) (txs : List TransactionRequest) (d : Done)
        → ((h.submitter.config.dry_run ≡ false)
            → Adds h.submitter.config.retry_attempts txs d.sent (send d.sent).1)
        → Rebalanced index_id vendor_id remainder
            (record {
              assets = unwrap_or (get_index_assets index_id h.index_mapper) [];
              batch_id = correlation_id;
            })
            txs
            d
            (rebalance decimal show_hash h index_id vendor_id remainder correlation_id failure send
              d)
    unfolding rebalance process_order is_dry_run
    rebalance-Rebalanced index_id vendor_id remainder correlation_id failure send txs d adds =
        let request : UpdateMarketDataRequest = record {
          assets = unwrap_or (get_index_assets index_id h.index_mapper) [];
          batch_id = correlation_id;
        } in
        elim (Result-cases (h.vendor_client d.posted request)) [
          | inr (e, failed) ↦ rw (failed, rebalance) (refl, inl (e, refl, refl, refl))
          | inl (response, answer) ↦ elim (Bool-cases h.submitter.config.dry_run) [
            | inl dry ↦
                rw (answer, rebalance, dry) (refl, inr (response, refl, inl (refl, refl, refl)))
            | inr live ↦ elim (Result-cases (send d.sent).0) [
              | inl (receipt, got) ↦
                  rw (answer, rebalance, live, got)
                    (refl, inr (response, refl, inr (refl, adds live, inl refl)))
              | inr (e, failed) ↦
                  rw (answer, rebalance, live, failed)
                    (refl, inr (response, refl, inr (refl, adds live, inr (_, refl))))
            ]
          ]
        ]

    handle_acquisition_claim-Handled :
        (e : AcquisitionClaimEvent) (d : Done)
        → Handled (acquisition_claimed e) d (handle_acquisition_claim decimal show_hash h e d)
    unfolding handle_acquisition_claim process_pending_buy_order
    handle_acquisition_claim-Handled e d =
        let call =
          process_pending_buy_order_call h.submitter.config.vendor_id e.index_id e.controller
            max_u128 in
        elim (Bool-cases (leb e.remain h.config.claim_remainder_threshold)) [
          | inl low ↦ inl (ground arith, rw low)
          | inr high ↦ inr (
            ground arith,
            rw high (
                rebalance-Rebalanced e.index_id e.vendor_id e.remain
                  (correlation decimal show_hash h "acq_claim:" e.index_id e.tx_hash)
                  "processPendingBuyOrder failed: "
                  (process_pending_buy_order decimal h.submitter e.index_id e.controller max_u128)
                  (to_castle h.submitter.config call ∷ []) d
                  (λ live.
                    submit-Adds decimal h.submitter provider live there tries
                      (str_append "dry-run-buy-" (decimal e.index_id)) call d.sent)),
          )
        ]

    handle_disposal_claim-Handled :
        (e : DisposalClaimEvent) (d : Done)
        → Handled (disposal_claimed e) d (handle_disposal_claim decimal show_hash h e d)
    unfolding handle_disposal_claim process_pending_sell_order
    handle_disposal_claim-Handled e d =
        let call =
          process_pending_sell_order_call h.submitter.config.vendor_id e.index_id e.controller
            max_u128 in
        elim (Bool-cases (leb e.itp_remain h.config.claim_remainder_threshold)) [
          | inl low ↦ inl (ground arith, rw low)
          | inr high ↦ inr (
            ground arith,
            rw high (
                rebalance-Rebalanced e.index_id e.vendor_id e.itp_remain
                  (correlation decimal show_hash h "disp_claim:" e.index_id e.tx_hash)
                  "processPendingSellOrder failed: "
                  (process_pending_sell_order decimal h.submitter e.index_id e.controller max_u128)
                  (to_castle h.submitter.config call ∷ []) d
                  (λ live.
                    submit-Adds decimal h.submitter provider live there tries
                      (str_append "dry-run-sell-" (decimal e.index_id)) call d.sent)),
          )
        ]

    dispatch-Handled :
        (event : VaultEvent) (d : Done) → Handled event d (dispatch decimal show_hash h event d)
    unfolding dispatch
    dispatch-Handled (acquisition_claimed e) d = handle_acquisition_claim-Handled e d
    dispatch-Handled (disposal_claimed e) d = handle_disposal_claim-Handled e d
    dispatch-Handled (buy e) d = refl
    dispatch-Handled (sell e) d = refl
    dispatch-Handled (acquired e) d = refl
    dispatch-Handled (disposed e) d = refl

    -- A handler with a provider and at least one attempt does nothing when it is disabled. When
    -- enabled it passes over events that are no claims and reports claims up to the threshold, and does
    -- nothing else for either. For a claim above the threshold it posts one request with the assets
    -- of the index; only if the vendor answers, and it is no dry run, it sends the order of the
    -- claim's controller, with retries: a buy for an acquisition, a sell for a disposal.
    pub handle_event-Handled :
        (event : VaultEvent) (d : Done)
        → let out = handle_event decimal show_hash h event d in
          ((h.config.enabled ≡ false) × (out ≡ (disabled, d)))
          ⊎ ((h.config.enabled ≡ true) × Handled event d out)
    unfolding handle_event
    handle_event-Handled event d = elim (Bool-cases h.config.enabled) [
      | inl on ↦ inr (on, rw on (dispatch-Handled event d))
      | inr off ↦ inl (off, rw off)
    ]
