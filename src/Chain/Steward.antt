-- ===== src/Chain/Steward.antt =====
-- `StewardClient` of bin/keeper/src/chain/steward_client.rs: the vaults and the assets of the
-- indices, read from the Steward contract and cached for a time. Clock readings are milliseconds.
pub mod Decode
pub mod Caching
mod Tests
use Prim.Native.String.{String, ◌++◌ as str_append}
use vendor.Base.{
  ℕ, zero, suc, ◌+◌, ◌-◌, ◌*◌, ◌/◌, List, [], ◌∷◌, ◌++◌, Option, none, some, Bool, true, false, ltb,
  leb, nat_beq, if◌then◌else◌, length, take, drop, map, Result, ok, err, is_empty_list, contains,
}
use vendor.Base.Map.{Map, nat_eq, lookup, insert, remove}
use vendor.Codec.{from_le_bytes}
use vendor.Chain.Listener.{ChainError, steward_call_failed, vault_not_found}

-- The scale of asset ids, 10^18.
abbrev pub asset_id_scale : ℕ
asset_id_scale = 1000000000000000000

pub unscale_asset_ids : List ℕ → List ℕ
unscale_asset_ids asset_ids = map (λ id. id / asset_id_scale) asset_ids

pub record CacheEntry : Type 0 where
  pub address : ℕ
  pub cached_at : ℕ

pub record AssetCacheEntry : Type 0 where
  pub asset_ids : List ℕ
  pub cached_at : ℕ

pub record StewardClient : Type 0 where
  pub cache_ttl_secs : ℕ
  pub refresh_interval_secs : ℕ
  pub vault_cache : Map ℕ CacheEntry
  pub asset_cache : Map ℕ AssetCacheEntry
  pub known_vaults : List ℕ
  pub last_refresh : Option ℕ

unfoldable pub new_client : (cache_ttl_secs refresh_interval_secs : ℕ) → StewardClient
new_client cache_ttl_secs refresh_interval_secs = record {
  cache_ttl_secs = cache_ttl_secs;
  refresh_interval_secs = refresh_interval_secs;
  vault_cache = [];
  asset_cache = [];
  known_vaults = [];
  last_refresh = none;
}

-- The contract: the calls that the client makes, and the logs of `IndexCreated`, each with its index
-- and its vault if it can be decoded.
pub record Steward : Type 0 where
  pub get_vault : ℕ → Result ℕ String
  pub get_index_assets_count : ℕ → Result ℕ String
  pub get_index_assets : ℕ → Result (List ℕ) String
  pub index_created_logs : Result (List (Option (ℕ × ℕ))) String

-- `elapsed() < Duration::from_secs(secs)`
abbrev pub is_fresh : (now cached_at secs : ℕ) → Bool
is_fresh now cached_at secs = ltb (now - cached_at) (secs * 1000)

-- The loop over `bytes.chunks(16)`, for that many chunks: a last one that is shorter is skipped.
unfoldable pub chunk_loop : ℕ → List ℕ → List ℕ
chunk_loop zero bytes = []
chunk_loop (suc rounds) bytes =
    let chunk = take 16 bytes in
    let rest = chunk_loop rounds (drop 16 bytes) in
    if nat_beq (length chunk) 16 then from_le_bytes chunk ∷ rest else rest

unfoldable pub decode_asset_ids : List ℕ → Result (List ℕ) ChainError
unfolding chunk_loop
decode_asset_ids bytes =
    if is_empty_list bytes then ok [] else ok (chunk_loop ((length bytes + 15) / 16) bytes)

unfoldable pub cache_assets : (now index_id : ℕ) → List ℕ → StewardClient → StewardClient
cache_assets now index_id asset_ids c = record c {
  asset_cache = insert index_id (record { asset_ids = asset_ids; cached_at = now }) c.asset_cache;
}

unfoldable pub cache_vault : (now index_id address : ℕ) → StewardClient → StewardClient
cache_vault now index_id address c = record c {
  vault_cache = insert index_id (record { address = address; cached_at = now }) c.vault_cache;
}

unfoldable pub add_known : ℕ → StewardClient → StewardClient
add_known address c =
    if contains address c.known_vaults
    then c
    else record c { known_vaults = c.known_vaults ++ address ∷ [] }

unfoldable pub query_vault_from_chain :
    Steward → (now index_id : ℕ) → StewardClient → Result ℕ ChainError × StewardClient
unfolding cache_vault add_known
query_vault_from_chain steward now index_id c = elim (steward.get_vault index_id) [
  | err e ↦ (err (steward_call_failed (str_append "getVault failed: " e)), c)
  | ok address ↦
      if nat_beq address 0
      then (err (vault_not_found index_id), c)
      else (ok address, add_known address (cache_vault now index_id address c))
]

unfoldable pub get_vault :
    Steward → (now index_id : ℕ) → StewardClient → Result ℕ ChainError × StewardClient
unfolding query_vault_from_chain
get_vault steward now index_id c = elim (lookup index_id c.vault_cache) [
  | none ↦ query_vault_from_chain steward now index_id c
  | some entry ↦
      if is_fresh now entry.cached_at c.cache_ttl_secs
      then (ok entry.address, c)
      else query_vault_from_chain steward now index_id c
]

-- `describe` is the text of an error, which names the index.
module _ (describe : String → ℕ → String → String) where
  pub get_index_asset_count : Steward → ℕ → Result ℕ ChainError
  get_index_asset_count steward index_id = elim (steward.get_index_assets_count index_id) [
    | ok count ↦ ok count
    | err e ↦ err (steward_call_failed (describe "getIndexAssetsCount" index_id e))
  ]

  unfoldable pub query_assets_from_chain :
      Steward → (now index_id : ℕ) → StewardClient → Result (List ℕ) ChainError × StewardClient
  unfolding decode_asset_ids cache_assets
  query_assets_from_chain steward now index_id c = elim (steward.get_index_assets index_id) [
    | err e ↦ (err (steward_call_failed (describe "getIndexAssets" index_id e)), c)
    | ok bytes ↦ elim (decode_asset_ids bytes) [
      | err e ↦ (err e, c)
      | ok asset_ids ↦ (ok asset_ids, cache_assets now index_id asset_ids c)
    ]
  ]

  unfoldable pub get_index_assets :
      Steward → (now index_id : ℕ) → StewardClient → Result (List ℕ) ChainError × StewardClient
  unfolding query_assets_from_chain
  get_index_assets steward now index_id c = elim (lookup index_id c.asset_cache) [
    | none ↦ query_assets_from_chain steward now index_id c
    | some entry ↦
        if is_fresh now entry.cached_at c.cache_ttl_secs
        then (ok entry.asset_ids, c)
        else query_assets_from_chain steward now index_id c
  ]

pub invalidate_asset_cache : ℕ → StewardClient → StewardClient
invalidate_asset_cache index_id c = record c { asset_cache = remove index_id c.asset_cache }

pub clear_asset_cache : StewardClient → StewardClient
clear_asset_cache c = record c { asset_cache = [] }

-- The body of the loop over the logs: the vault of the contract, or the log's where the call fails.
pub discover : Steward → (now : ℕ) → ℕ × ℕ → StewardClient → ℕ × StewardClient
discover steward now (index_id, vault) c =
    let (answer, c') = query_vault_from_chain steward now index_id c in
    elim answer [
      | ok address ↦ (address, c')
      | err e ↦ (vault, add_known vault (cache_vault now index_id vault c'))
    ]

pub refresh_loop :
    Steward → (now : ℕ) → List (Option (ℕ × ℕ)) → StewardClient → List ℕ × StewardClient
unfolding discover
refresh_loop steward now [] c = ([], c)
refresh_loop steward now (none ∷ logs) c = refresh_loop steward now logs c
refresh_loop steward now (some created ∷ logs) c =
    let (vault, c') = discover steward now created c in
    let (vaults, c'') = refresh_loop steward now logs c' in (vault ∷ vaults, c'')

pub refresh_vault_list : Steward → ℕ → StewardClient → Result (List ℕ) ChainError × StewardClient
unfolding refresh_loop
refresh_vault_list steward now c = elim steward.index_created_logs [
  | err e ↦ (err (steward_call_failed (str_append "Failed to fetch IndexCreated logs: " e)), c)
  | ok logs ↦
      let (vaults, c') = refresh_loop steward now logs c in
      (ok vaults, record c' { last_refresh = some now })
]

pub register_vault : (now index_id address : ℕ) → StewardClient → StewardClient
register_vault now index_id address c = add_known address (cache_vault now index_id address c)

pub set_vault_addresses : ℕ → List ℕ → StewardClient → StewardClient
set_vault_addresses now addresses c = record c { known_vaults = addresses; last_refresh = some now }

pub invalidate_cache : ℕ → StewardClient → StewardClient
invalidate_cache index_id c = record c { vault_cache = remove index_id c.vault_cache }

pub clear_cache : StewardClient → StewardClient
clear_cache c = record c { vault_cache = []; last_refresh = none }

pub needs_refresh : ℕ → StewardClient → Bool
needs_refresh now c = elim c.last_refresh [
  | none ↦ true
  | some instant ↦ leb (c.refresh_interval_secs * 1000) (now - instant)
]
