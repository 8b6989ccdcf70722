-- ===== src/OnchainSync/Tests.antt =====
-- A contract with two ITPs, of which one has an asset that the vendor does not know.

use vendor.Base.{
  ℕ, ◌+◌, ◌≤◌, ◌≡◌, ◌↔◌, refl, List, [], ◌∷◌, ◌++◌, none, some, Bool, true, false, if◌then◌else◌,
  nat_beq, ok, err, map,
}
use vendor.EventCache.Indexer.{EventLog}
use vendor.Codec.{from_le_bytes}
use vendor.OnchainSync.{ItpInfo, ItpStatus, IndexEvent, Castle}
use vendor.OnchainSync.Itps.{
  discover_all_itps, discover_accepted_itps, find_missing_assets, enrich_with_creation_blocks,
}
use vendor.OnchainSync.Itps.Accepted.{Split, Supports, discover_accepted_itps-Split}
use vendor.OnchainSync.Itps.Created.{with_created_block, enrich_with_creation_blocks-eq-map}
use vendor.OnchainSync.Events.{get_rebalance_history, get_quote_last_updated, is_quote_stale}
use vendor.OnchainSync.Events.Staleness.{IsUpdatedAt, is_quote_stale_lem}

abbrev label : ℕ → List ℕ
label v = v ∷ 0 ∷ 0 ∷ 0 ∷ 0 ∷ 0 ∷ 0 ∷ 0 ∷ 0 ∷ 0 ∷ 0 ∷ 0 ∷ 0 ∷ 0 ∷ 0 ∷ 0 ∷ []

abbrev created : ℕ → ℕ → EventLog ℕ
created index_id block = record {
  decoded = ok index_id;
  block_number = some block;
  transaction_hash = some "0x01";
}

abbrev quoted : ℕ → ℕ → EventLog IndexEvent
quoted index_id block = record {
  decoded = ok (record { index_id = index_id; sender = "0xaa" });
  block_number = some block;
  transaction_hash = some "0x02";
}

-- Of the first index only the label 5 is an asset, of the others 5 and 6.
abbrev castle : Castle
castle = record {
  get_block_number = ok 2000;
  get_vault = λ id. if nat_beq id 3 then ok 0 else ok 7;
  get_index_assets_count = λ id. err "reverted";
  get_index_assets = λ id. if nat_beq id 1 then ok (label 5) else ok (label 5 ++ label 6);
  get_index_weights = λ id. ok (label 9);
  get_vendor_assets = λ id. err "reverted";
  index_created = λ from. ok (created 1 10 ∷ created 2 20 ∷ created 3 30 ∷ created 1 40 ∷ []);
  index_weights_updated = λ from. ok (quoted 1 50 ∷ quoted 2 60 ∷ []);
  index_quote_updated = λ from. ok (quoted 1 1900 ∷ quoted 2 1950 ∷ quoted 1 1800 ∷ []);
}

abbrev itp_of : ℕ → List ℕ → ℕ → ItpInfo
itp_of index_id asset_ids block = record {
  index_id = index_id;
  vault_address = 7;
  asset_count = 0;
  composition = some (record { index_id = index_id; asset_ids = asset_ids; weights = 9 ∷ [] });
  status = ItpStatus.active;
  collateral_address = none;
  creation_block = some block;
}

-- The index without a vault is skipped, and the one that was created twice is listed twice.
abbrev discovered : List ItpInfo
discovered = itp_of 1 (5 ∷ []) 10 ∷ itp_of 2 (5 ∷ 6 ∷ []) 20 ∷ itp_of 1 (5 ∷ []) 40 ∷ []

discovered_itps : discover_all_itps castle ≡ ok discovered
unfolding discover_all_itps from_le_bytes
discovered_itps = refl

discover_accepted_itps-Split_example :
    (accepted rejected : List ItpInfo) × (discover_accepted_itps castle (4 ∷ 5 ∷ []) (some [])
      ≡ ok (accepted, rejected))
    × Split (Supports (4 ∷ 5 ∷ [])) discovered accepted rejected
discover_accepted_itps-Split_example =
    discover_accepted_itps-Split castle (4 ∷ 5 ∷ []) (some []) discovered discovered_itps

accepted_itps :
    discover_accepted_itps castle (4 ∷ 5 ∷ []) none
    ≡ ok (itp_of 1 (5 ∷ []) 10 ∷ itp_of 1 (5 ∷ []) 40 ∷ [], itp_of 2 (5 ∷ 6 ∷ []) 20 ∷ [])
unfolding discover_accepted_itps from_le_bytes
accepted_itps = refl

abbrev known_itps : List ItpInfo
known_itps = itp_of 2 (6 ∷ []) 0 ∷ itp_of 1 (5 ∷ []) 0 ∷ itp_of 4 (6 ∷ []) 3 ∷ []

enrich_with_creation_blocks-eq-map_example : enrich_with_creation_blocks castle known_itps ≡ (
  ok tt,
  map
      (with_created_block (created 1 10 ∷ created 2 20 ∷ created 3 30 ∷ created 1 40 ∷ []))
      known_itps,
)
enrich_with_creation_blocks-eq-map_example =
    enrich_with_creation_blocks-eq-map castle known_itps
      (created 1 10 ∷ created 2 20 ∷ created 3 30 ∷ created 1 40 ∷ []) (refl, (refl, (refl, tt)))
      refl

enriched :
    enrich_with_creation_blocks castle known_itps
    ≡ (ok tt, itp_of 2 (6 ∷ []) 20 ∷ itp_of 1 (5 ∷ []) 40 ∷ itp_of 4 (6 ∷ []) 3 ∷ [])
unfolding enrich_with_creation_blocks
enriched = refl

-- As the registered assets cannot be read, all are missing.
missing_assets :
    find_missing_assets castle 1 (record { index_id = 2; asset_ids = 5 ∷ 6 ∷ []; weights = [] })
    ≡ 5 ∷ 6 ∷ []
unfolding find_missing_assets
missing_assets = refl

history :
    get_rebalance_history castle 2 none
    ≡ ok (
        record { index_id = 2; block_number = some 60; tx_hash = some "0x02"; sender = some "0xaa" }
        ∷ [])
unfolding get_rebalance_history
history = refl

abbrev updates : List (EventLog IndexEvent)
updates = quoted 1 1900 ∷ quoted 2 1950 ∷ quoted 1 1800 ∷ []

is_quote_stale_lem_example :
    (stale : Bool) × (is_quote_stale castle castle 1 99 ≡ ok stale)
    × ((stale ≡ false) ↔ ((b : ℕ) × IsUpdatedAt 1 b updates × (2000 ≤ b + 99)))
is_quote_stale_lem_example = is_quote_stale_lem castle castle 1 99 2000 2000 updates refl refl refl

staleness :
    (is_quote_stale castle castle 1 99 ≡ ok true)
    × (is_quote_stale castle castle 1 100 ≡ ok false)
    × (is_quote_stale castle castle 3 5000 ≡ ok true)
    × (get_quote_last_updated castle 1 1000 ≡ ok (some 1900))
unfolding is_quote_stale get_quote_last_updated
staleness = (refl, refl, refl, refl)
