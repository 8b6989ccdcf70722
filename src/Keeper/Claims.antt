-- ===== src/Keeper/Claims.antt =====
-- `ClaimHandler` of bin/keeper/src/keeper/claim_handler.rs.
pub mod Threshold
use Prim.Native.String.{String, ◌++◌ as str_append}
use vendor.Base.{
  ℕ, ◌-◌, ◌^◌, List, [], ◌∷◌, ◌++◌, Option, none, some, Bool, true, false, not, leb, if◌then◌else◌,
  unwrap_or, Result, ok, err,
}
use vendor.Uint256.{u128_mod}
use vendor.Index.{Indices, get_index_assets}
use vendor.Chain.Events.{
  AcquisitionClaimEvent, DisposalClaimEvent, VaultEvent, acquisition_claimed, disposal_claimed,
}
use vendor.Onchain.{OnchainSubmitter, TxReceipt, Sent, is_dry_run}
use vendor.Onchain.Settle.{process_pending_buy_order, process_pending_sell_order}
use vendor.Keeper.{UpdateMarketDataRequest, Posted, Vendor, Done}

pub record ClaimHandlerConfig : Type 0 where
  pub claim_remainder_threshold : ℕ
  pub enabled : Bool

unfoldable pub default_config : ClaimHandlerConfig
default_config = record { claim_remainder_threshold = 100; enabled = true }

-- `processed` and `below_threshold` carry the index, the vendor and the remainder.
pub data ClaimResult : Type 0 where
  processed : ℕ → ℕ → ℕ → String → ClaimResult
  below_threshold : ℕ → ℕ → ℕ → ℕ → ClaimResult
  disabled : ClaimResult
  not_a_claim : ClaimResult
  error : ℕ → String → ClaimResult

pub record ClaimHandler (Weight Wallet : Type 0) : Type 0 where
  pub config : ClaimHandlerConfig
  pub vendor_client : Vendor
  pub index_mapper : Indices Weight
  pub submitter : OnchainSubmitter Wallet

abbrev pub max_u128 : ℕ
max_u128 = u128_mod - 1

-- `decimal` and `show_hash` print a number and a hash.
module _ (decimal show_hash : ℕ → String) {Weight Wallet : Type 0}
    (h : ClaimHandler Weight Wallet) where
  -- Where the vendor has the data: the order, unless in a dry run.
  pub process_order :
      (index_id vendor_id remainder : ℕ) (status failure : String)
      → (Sent → Result TxReceipt String × Sent)
      → Done
      → ClaimResult × Done
  process_order index_id vendor_id remainder status failure send d =
      let (result, sent') = send d.sent in
      if not (is_dry_run h.submitter)
      then elim result [
        | ok receipt ↦ (processed index_id vendor_id remainder status, record d { sent = sent' })
        | err e ↦ (error index_id (str_append failure e), record d { sent = sent' })
      ]
      else (processed index_id vendor_id remainder status, d)

  -- What the two handlers do alike above the threshold: the request to the vendor, then the order.
  pub rebalance :
      (index_id vendor_id remainder : ℕ) (correlation_id failure : String)
      → (Sent → Result TxReceipt String × Sent)
      → Done
      → ClaimResult × Done
  unfolding process_order
  rebalance index_id vendor_id remainder correlation_id failure send d =
      let asset_ids = unwrap_or (get_index_assets index_id h.index_mapper) [] in
      let request : UpdateMarketDataRequest = record {
        assets = asset_ids;
        batch_id = correlation_id;
      } in
      let d' : Done = record d { posted = d.posted ++ request ∷ [] } in
      elim (h.vendor_client d.posted request) [
        | err e ↦ (error index_id (str_append "Vendor update failed: " e), d')
        | ok response ↦ process_order index_id vendor_id remainder response.status failure send d'
      ]

  abbrev pub correlation : String → ℕ → ℕ → String
  correlation prefix index_id tx_hash =
      str_append prefix (str_append (decimal index_id) (str_append ":" (show_hash tx_hash)))

  pub handle_acquisition_claim : AcquisitionClaimEvent → Done → ClaimResult × Done
  unfolding rebalance
  handle_acquisition_claim e d =
      let threshold = h.config.claim_remainder_threshold in
      if leb e.remain threshold
      then (below_threshold e.index_id e.vendor_id e.remain threshold, d)
      else rebalance e.index_id e.vendor_id e.remain (correlation "acq_claim:" e.index_id e.tx_hash)
          "processPendingBuyOrder failed: "
          (process_pending_buy_order decimal h.submitter e.index_id e.controller max_u128) d

  pub handle_disposal_claim : DisposalClaimEvent → Done → ClaimResult × Done
  unfolding rebalance
  handle_disposal_claim e d =
      let threshold = h.config.claim_remainder_threshold in
      if leb e.itp_remain threshold
      then (below_threshold e.index_id e.vendor_id e.itp_remain threshold, d)
      else rebalance e.index_id e.vendor_id e.itp_remain
          (correlation "disp_claim:" e.index_id e.tx_hash) "processPendingSellOrder failed: "
          (process_pending_sell_order decimal h.submitter e.index_id e.controller max_u128) d

  -- The match of `handle_event`.
  pub dispatch : VaultEvent → Done → ClaimResult × Done
  unfolding handle_acquisition_claim handle_disposal_claim
  dispatch (acquisition_claimed e) d = handle_acquisition_claim e d
  dispatch (disposal_claimed e) d = handle_disposal_claim e d
  dispatch _ d = (not_a_claim, d)

  pub handle_event : VaultEvent → Done → ClaimResult × Done
  unfolding dispatch
  handle_event event d = if not h.config.enabled then (disabled, d) else dispatch event d
