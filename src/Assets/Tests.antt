-- ===== src/Assets/Tests.antt =====
-- A contract that fails for one of two indices.
use Prim.Native.String.{String}
use vendor.Base.{
  ℕ, ◌≡◌, refl, List, [], ◌∷◌, none, true, nat_beq, if◌then◌else◌, Result, ok, err, inl, inr,
  is_err, ◌⊎◌, replicate, if-both,
}
use vendor.Base.Map.{nat_eq}
use vendor.Chain.Listener.{ChainError, vault_not_found, rpc_error}
use vendor.Chain.Steward.{StewardClient, Steward, get_index_assets}
use vendor.Chain.Steward.Caching.{IsCoherent, Holds}
use vendor.Assets.{
  ExtractionResult, from_chain_error, index_not_found, chain_error, all_succeeded, has_no_assets,
  extract_assets_for_batch, extract_assets_for_index,
}
use vendor.Assets.Union.{Split, IsUnion, extract_assets_for_batch-IsUnion}

abbrev describe : String → ℕ → String → String
describe call index_id e = e

abbrev to_text : ChainError → String
to_text e = "error"

abbrev held : ℕ → List ℕ
held i = 101 ∷ replicate 15 0

abbrev steward : Steward
steward = record {
  get_vault = λ i. err "down";
  get_index_assets_count = λ i. ok 1;
  get_index_assets = λ i. if nat_beq i 1 then ok (held i) else err "down";
  index_created_logs = ok [];
}

abbrev client : StewardClient
client = record {
  cache_ttl_secs = 300;
  refresh_interval_secs = 300;
  vault_cache = [];
  asset_cache = [];
  known_vaults = [];
  last_refresh = none;
}

steward-Holds : Holds held steward
steward-Holds i =
    if-both (λ (answer : Result (List ℕ) String). (answer ≡ ok (held i)) ⊎ (is_err answer ≡ true))
      (nat_beq i 1) (ok (held i)) (err "down") (λ e. inl refl) (λ e. inr refl)

extract_assets_for_batch-IsUnion_example :
    let out = extract_assets_for_batch describe to_text steward 0 5 (2 ∷ 1 ∷ []) client in
    ((kept : List ℕ) × (dropped : List ℕ) × Split steward kept dropped (2 ∷ 1 ∷ [])
      × IsUnion held describe to_text steward steward-Holds 0 (2 ∷ 1 ∷ []) kept dropped out.0)
    × IsCoherent held out.1
extract_assets_for_batch-IsUnion_example =
    extract_assets_for_batch-IsUnion held describe to_text steward steward-Holds 0 5 (2 ∷ 1 ∷ [])
      client (λ i entry e. cc) refl

errors :
    (from_chain_error (vault_not_found 4) ≡ index_not_found 4)
    × (from_chain_error (rpc_error "x") ≡ chain_error (rpc_error "x"))
unfolding from_chain_error
errors = (refl, refl)

abbrev nothing : ExtractionResult
nothing = record {
  asset_ids = [];
  successful_indices = 0;
  failed_indices = 0;
  failed_index_ids = [];
  extraction_time_ms = 0;
}

-- No indices are no failure.
no_indices :
    (extract_assets_for_batch describe to_text steward 0 5 [] client ≡ (ok nothing, client))
    × (all_succeeded nothing ≡ true)
    × (has_no_assets nothing ≡ true)
    × (is_err (extract_assets_for_index describe to_text steward 0 2 client).0 ≡ true)
unfolding extract_assets_for_batch all_succeeded has_no_assets extract_assets_for_index
    get_index_assets
no_indices = (refl, refl, refl, refl)
