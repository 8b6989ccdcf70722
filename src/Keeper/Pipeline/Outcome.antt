-- ===== src/Keeper/Pipeline/Outcome.antt =====
-- What a batch that goes through the pipeline leaves.
use Prim.Native.String.{String}
use vendor.Base.{
  if-both, ℕ, ◌<◌, ◌≡◌, refl, ap, ◌⊎◌, inl, inr, List, [], ◌∷◌, ◌++◌, Option, none, some, true,
  false, ok, err, Option-cases, Result-cases, if◌then◌else◌, is_empty_list,
}
use vendor.Accumulator.Processable.{ProcessableBatch}
use vendor.Chain.Listener.{ChainError}
use vendor.Chain.Steward.{Steward, StewardClient}
use vendor.Assets.{ExtractionResult}
use vendor.Onchain.{Provider, SettlementResult}
use vendor.Onchain.Settle.Sequence.{Adds, planned, settle_batch-Adds}
use vendor.Onchain.Settle.Results.{Reports, settle_batch-Reports}
use vendor.Keeper.{UpdateMarketDataRequest, UpdateMarketDataResponse, Done}
use vendor.Keeper.Pipeline.{
  generate_correlation_id, payload_of, KeeperLoop, Processed, extract, post_and_settle,
  process_batch_pipeline,
}

abbrev pub request_of : (ℕ → String) → ProcessableBatch → List ℕ → UpdateMarketDataRequest
request_of decimal p asset_ids = record {
  assets = asset_ids;
  batch_id = generate_correlation_id decimal p;
}

-- There are no assets for the batch: no extractor, an extraction that failed, or an empty result.
abbrev pub HasNoAssets : Option ExtractionResult → Type 0
HasNoAssets none = Unit
HasNoAssets (some r) = is_empty_list r.asset_ids ≡ true

-- What became of a batch with these assets.
abbrev pub Settled :
    {Wallet : Type 0}
    → (ℕ → String)
    → ProcessableBatch
    → Option ExtractionResult
    → KeeperLoop Wallet
    → Done
    → Processed Wallet
    → Type 0
Settled decimal p extracted k d out =
    (HasNoAssets extracted × (out.done ≡ d) × (out.settlement ≡ none))
    ⊎ ((r : ExtractionResult) × (extracted ≡ some r)
        × (is_empty_list r.asset_ids ≡ false)
        × (out.done.posted ≡ d.posted ++ request_of decimal p r.asset_ids ∷ [])
        × (((e : String) × (k.vendor_client d.posted (request_of decimal p r.asset_ids) ≡ err e)
              × (out.done.sent ≡ d.sent)
              × (out.settlement ≡ none))
            ⊎ ((response : UpdateMarketDataResponse) × (k.vendor_client d.posted
                    (request_of decimal p r.asset_ids)
                  ≡ ok response)
                × (result : SettlementResult) × (out.settlement ≡ some (ok result))
                × Reports (payload_of (generate_correlation_id decimal p) p) result
                × Adds k.submitter.config.retry_attempts
                    (planned k.submitter.config (payload_of (generate_correlation_id decimal p) p))
                    d.sent out.done.sent)))

module _ (decimal : ℕ → String) (describe : String → ℕ → String → String)
    (to_text : ChainError → String) (steward : Steward) {Wallet : Type 0} (k : KeeperLoop Wallet)
    (provider : Provider) (live : k.submitter.config.dry_run ≡ false)
    (there : k.submitter.provider ≡ some provider)
    (tries : 0 < k.submitter.config.retry_attempts) where
  post_and_settle-Settled :
      (client : Option StewardClient) (elapsed_ms : ℕ) (p : ProcessableBatch) (r : ExtractionResult)
      (d : Done)
      → is_empty_list r.asset_ids ≡ false
      → Settled decimal p (some r) k d (
          post_and_settle decimal elapsed_ms p r.asset_ids
            (record k { asset_extractor = client })
            d)
  unfolding post_and_settle
  post_and_settle-Settled client elapsed_ms p r d some_assets =
      let payload = payload_of (generate_correlation_id decimal p) p in
      let request = request_of decimal p r.asset_ids in
      elim (Result-cases (k.vendor_client d.posted request)) [
        | inr (e, failed) ↦
            rw (failed, post_and_settle)
              (inr (r, refl, some_assets, refl, inl (e, failed, refl, refl)))
        | inl (response, answer) ↦
            let (result, e, reports) =
              settle_batch-Reports decimal k.submitter elapsed_ms payload d.sent in
            rw (answer, post_and_settle)
              (inr (
                r,
                refl,
                some_assets,
                refl,
                inr (
                  response,
                  answer,
                  result,
                  ap some e,
                  reports,
                  settle_batch-Adds decimal k.submitter provider live there tries elapsed_ms payload
                      d.sent,
                ),
              ))
      ]

  choose-Settled :
      (client : Option StewardClient) (elapsed_ms : ℕ) (p : ProcessableBatch) (r : ExtractionResult)
      (d : Done)
      → Settled decimal p (some r) k d (
          if is_empty_list r.asset_ids
          then record {
            keeper = record k { asset_extractor = client };
            done = d;
            settlement = none;
          }
          else post_and_settle decimal elapsed_ms p r.asset_ids
              (record k { asset_extractor = client })
              d)
  choose-Settled client elapsed_ms p r d =
      if-both (λ (out : Processed Wallet). Settled decimal p (some r) k d out)
        (is_empty_list r.asset_ids) _ _ (λ no_assets. inl (no_assets, refl, refl))
        (λ some_assets. post_and_settle-Settled client elapsed_ms p r d some_assets)

  -- The extraction of a batch gives its assets or none. With none, be it that there is no extractor,
  -- that the extraction fails or that it finds nothing, the batch is dropped: nothing is posted,
  -- sent or settled. Otherwise one request is posted; if the vendor fails, nothing is sent or
  -- settled either; only if it answers, a submitter with a provider, at least one attempt and no dry run
  -- sends the quotes, buys and sells of the batch in this order, and each order is reported.
  pub process_batch_pipeline-Settled :
      (now elapsed_ms : ℕ) (p : ProcessableBatch) (d : Done)
      → Settled decimal p
          (extract describe to_text steward now p.unique_index_ids k.asset_extractor).0
          k
          d
          (process_batch_pipeline decimal describe to_text steward now elapsed_ms p k d)
  unfolding process_batch_pipeline
  process_batch_pipeline-Settled now elapsed_ms p d =
      let found = extract describe to_text steward now p.unique_index_ids k.asset_extractor in
      elim (Option-cases found.0) [
        | inl e ↦ rw (e, process_batch_pipeline) (inl (tt, refl, refl))
        | inr (r, e) ↦ rw (e, process_batch_pipeline) (choose-Settled found.1 elapsed_ms p r d)
      ]
