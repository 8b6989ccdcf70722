-- ===== src/OnchainSync/Itps.antt =====
-- The ITPs of `OnChainSyncService` in libs/onchain-sync/src/lib.rs. The contract answers alike
-- during one operation.
pub mod Accepted
pub mod Created
use Prim.Native.String.{String}
use vendor.Base.{
  ℕ, ◌+◌, ◌/◌, ◌%◌, List, [], ◌∷◌, ◌++◌, Option, none, some, Bool, true, false, not, if◌then◌else◌,
  length, filter, map, Result, ok, err, is_empty_list, contains, nat_beq,
}
use vendor.EventCache.Indexer.{EventLog}
use vendor.OnchainSync.{
  ItpInfo, CompositionSnapshot, active, Castle, SyncError, fetch_failed, call_failed, no_vault,
  decode_labels,
}

-- 2 ^ 64, for `as usize`.
abbrev pub usize_mod : ℕ
usize_mod = 18446744073709551616

-- A call of the contract whose answer is a list of labels.
unfoldable pub labels_of : String → ℕ → (ℕ → Result (List ℕ) String) → Result (List ℕ) SyncError
unfolding decode_labels
labels_of name id call = elim (call id) [
  | err e ↦ err (call_failed name id e)
  | ok bytes ↦ decode_labels bytes
]

unfoldable pub get_itp_composition : Castle → ℕ → Result CompositionSnapshot SyncError
unfolding labels_of
get_itp_composition castle index_id =
    elim (labels_of "getIndexAssets" index_id castle.get_index_assets) [
      | err e ↦ err e
      | ok asset_ids ↦ elim (labels_of "getIndexWeights" index_id castle.get_index_weights) [
        | err e ↦ err e
        | ok weights ↦ ok (record { index_id = index_id; asset_ids = asset_ids; weights = weights })
      ]
    ]

-- `Result::ok` and `unwrap_or`
abbrev pub ok_or_none : {A : Type 0} {E : Type 0} → Result A E → Option A
ok_or_none (ok a) = some a
ok_or_none (err e) = none

abbrev pub ok_or : {A : Type 0} {E : Type 0} → Result A E → A → A
ok_or (ok a) default = a
ok_or (err e) default = default

unfoldable pub get_itp_info : Castle → ℕ → Result ItpInfo SyncError
unfolding get_itp_composition
get_itp_info castle index_id = elim (castle.get_vault index_id) [
  | err e ↦ err (call_failed "getVault" index_id e)
  | ok vault_address ↦
      if nat_beq vault_address 0
      then err (no_vault index_id)
      else ok (record {
        index_id = index_id;
        vault_address = vault_address;
        asset_count = ok_or (castle.get_index_assets_count index_id) 0 % usize_mod;
        composition = ok_or_none (get_itp_composition castle index_id);
        status = active;
        collateral_address = none;
        creation_block = none;
      })
]

-- The body of the loop over the logs: what cannot be decoded or queried is skipped.
unfoldable pub discover_itp : Castle → EventLog ℕ → List ItpInfo → List ItpInfo
unfolding get_itp_info
discover_itp castle log itps = elim log.decoded [
  | err e ↦ itps
  | ok index_id ↦ elim (get_itp_info castle index_id) [
    | err e ↦ itps
    | ok info ↦ itps ++ record info { creation_block = log.block_number } ∷ []
  ]
]

unfoldable pub discover_loop : Castle → List (EventLog ℕ) → List ItpInfo → List ItpInfo
unfolding discover_itp
discover_loop castle [] itps = itps
discover_loop castle (log ∷ logs) itps = discover_loop castle logs (discover_itp castle log itps)

unfoldable pub discover_all_itps : Castle → Result (List ItpInfo) SyncError
unfolding discover_loop
discover_all_itps castle = elim (castle.index_created 0) [
  | err e ↦ err (fetch_failed "IndexCreated" e)
  | ok logs ↦ ok (discover_loop castle logs [])
]

unfoldable pub get_vendor_assets : Castle → (vendor_id : ℕ) → Result (List ℕ) SyncError
unfolding labels_of
get_vendor_assets castle vendor_id = labels_of "getVendorAssets" vendor_id castle.get_vendor_assets

-- Where the registered assets cannot be read, none counts as registered.
unfoldable pub find_missing_assets : Castle → (vendor_id : ℕ) → CompositionSnapshot → List ℕ
unfolding get_vendor_assets
find_missing_assets castle vendor_id composition =
    let registered = ok_or (get_vendor_assets castle vendor_id) [] in
    filter (λ id. not (contains id registered)) composition.asset_ids

unfoldable pub validate_itp_assets : CompositionSnapshot → (known_asset_ids : List ℕ) → List ℕ
validate_itp_assets composition known_asset_ids =
    filter (λ id. not (contains id known_asset_ids)) composition.asset_ids

-- The whitelist of collaterals, where both it and the collateral are there.
unfoldable pub has_accepted_collateral : Option (List ℕ) → Option ℕ → Bool
has_accepted_collateral none collateral = true
has_accepted_collateral (some collaterals) none = true
has_accepted_collateral (some collaterals) (some collateral) = contains collateral collaterals

unfoldable pub is_accepted : (known_asset_ids : List ℕ) → Option (List ℕ) → ItpInfo → Bool
unfolding validate_itp_assets has_accepted_collateral
is_accepted known_asset_ids accepted_collaterals itp = elim itp.composition [
  | none ↦ false
  | some comp ↦
      if is_empty_list (validate_itp_assets comp known_asset_ids)
      then has_accepted_collateral accepted_collaterals itp.collateral_address
      else false
]

-- The loop over the discovered ITPs, with the accepted and the rejected ones so far.
unfoldable pub accept_loop :
    (known_asset_ids : List ℕ)
    → Option (List ℕ)
    → List ItpInfo
    → List ItpInfo × List ItpInfo
    → List ItpInfo × List ItpInfo
unfolding is_accepted
accept_loop known_asset_ids accepted_collaterals [] found = found
accept_loop known_asset_ids accepted_collaterals (itp ∷ itps) (accepted, rejected) =
    accept_loop known_asset_ids accepted_collaterals itps (
      if is_accepted known_asset_ids accepted_collaterals itp
      then (accepted ++ itp ∷ [], rejected)
      else (accepted, rejected ++ itp ∷ []))

unfoldable pub discover_accepted_itps :
    Castle
    → (known_asset_ids : List ℕ) → Option (List ℕ)
    → Result (List ItpInfo × List ItpInfo) SyncError
unfolding discover_all_itps accept_loop
discover_accepted_itps castle known_asset_ids accepted_collaterals =
    elim (discover_all_itps castle) [
      | err e ↦ err e
      | ok all_itps ↦ ok (accept_loop known_asset_ids accepted_collaterals all_itps ([], []))
    ]

-- `itps.iter_mut().find(…)`, and the write to what it finds.
unfoldable pub set_creation_block : ℕ → Option ℕ → List ItpInfo → List ItpInfo
set_creation_block index_id block_number [] = []
set_creation_block index_id block_number (itp ∷ itps) =
    if nat_beq itp.index_id index_id
    then record itp { creation_block = block_number } ∷ itps
    else itp ∷ set_creation_block index_id block_number itps

-- The body of the loop over the logs.
unfoldable pub enrich_log : EventLog ℕ → List ItpInfo → List ItpInfo
unfolding set_creation_block
enrich_log log itps = elim log.decoded [
  | err e ↦ itps
  | ok index_id ↦ set_creation_block index_id log.block_number itps
]

unfoldable pub enrich_loop : List (EventLog ℕ) → List ItpInfo → List ItpInfo
unfolding enrich_log
enrich_loop [] itps = itps
enrich_loop (log ∷ logs) itps = enrich_loop logs (enrich_log log itps)

unfoldable pub enrich_with_creation_blocks :
    Castle → List ItpInfo → Result (Unit {0}) SyncError × List ItpInfo
unfolding enrich_loop
enrich_with_creation_blocks castle itps = elim (castle.index_created 0) [
  | err e ↦ (err (fetch_failed "IndexCreated" e), itps)
  | ok logs ↦ (ok tt, enrich_loop logs itps)
]
