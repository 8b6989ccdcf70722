-- ===== src/Chain/Steward/Tests.antt =====
-- A word and a half, and clients of a contract with their caches empty or filled.
use Prim.Native.String.{String}
use vendor.Base.{
  ℕ, ◌*◌, ◌/◌, ◌≡◌, refl, List, [], ◌∷◌, ◌++◌, none, some, true, false, nat_beq, if◌then◌else◌,
  length, take, replicate, ok, err, inl, inr, subst, ap, ◌∙◌, Bool-cases, nat_beq_iff, arith,
  returns, is_err,
}
use vendor.Base.Map.{nat_eq}
use vendor.Codec.{from_vec, from_le_bytes}
use vendor.Chain.Steward.{
  StewardClient, Steward, decode_asset_ids, chunk_loop, AssetCacheEntry, get_index_assets,
  needs_refresh, unscale_asset_ids, get_vault, register_vault, refresh_vault_list, invalidate_cache,
  invalidate_asset_cache, clear_cache, clear_asset_cache, set_vault_addresses,
  get_index_asset_count, query_vault_from_chain, asset_id_scale,
}
use vendor.Chain.Steward.Decode.{decode_asset_ids-eq-from_vec}
use vendor.Chain.Steward.Caching.{IsCoherent, Answers, get_index_assets-Answers}

abbrev word_and_a_half : List ℕ
word_and_a_half = 101 ∷ replicate 15 0 ++ replicate 8 1

decode_asset_ids-eq-from_vec_example :
    (values : List ℕ) × (from_vec (take (length word_and_a_half / 16 * 16) word_and_a_half)
      ≡ returns values)
    × (decode_asset_ids word_and_a_half ≡ ok values)
decode_asset_ids-eq-from_vec_example = decode_asset_ids-eq-from_vec word_and_a_half (omega arith)

abbrev describe : String → ℕ → String → String
describe call index_id e = e

-- Index 1 holds the asset 101, any other index nothing.
abbrev held : ℕ → List ℕ
held i = if nat_beq 1 i then 101 ∷ replicate 15 0 else []

abbrev steward : Steward
steward = record {
  get_vault = λ i. if nat_beq i 1 then ok 70 else err "down";
  get_index_assets_count = λ i. ok 1;
  get_index_assets = λ i. ok (held i);
  index_created_logs = ok (some (1, 70) ∷ none ∷ some (2, 71) ∷ []);
}

abbrev client : StewardClient
client = record {
  cache_ttl_secs = 300;
  refresh_interval_secs = 300;
  vault_cache = [];
  asset_cache = [];
  known_vaults = [];
  last_refresh = none;
}

-- It is cached.
abbrev warm_client : StewardClient
warm_client = record client {
  asset_cache = (1, record { asset_ids = 101 ∷ []; cached_at = 0 }) ∷ [];
}

held_decodes : decode_asset_ids (held 1) ≡ ok (101 ∷ [])
unfolding decode_asset_ids chunk_loop from_le_bytes
held_decodes = refl

warm_client-IsCoherent : IsCoherent held warm_client
warm_client-IsCoherent i entry e = elim (Bool-cases (nat_beq 1 i)) [
  | inl here ↦
      let is_one : 1 ≡ i = (nat_beq_iff 1 i).0 here in
      let stored : AssetCacheEntry = record { asset_ids = 101 ∷ []; cached_at = 0 } in
      let cached : some stored ≡ some entry = rw here at e in
      let same : stored ≡ entry = cc in
      subst (λ k. decode_asset_ids (held k) ≡ ok entry.asset_ids) is_one
        (held_decodes ∙ ap (λ (x : AssetCacheEntry). ok x.asset_ids) same)
  | inr other ↦ cc (rw other at e)
]

get_index_assets-Answers_example :
    Answers held steward 1 (get_index_assets describe steward 5 1 warm_client).0
    × IsCoherent held (get_index_assets describe steward 5 1 warm_client).1
get_index_assets-Answers_example =
    get_index_assets-Answers held describe steward (λ i. inl refl) 5 1 warm_client
      warm_client-IsCoherent

-- The vault whose query fails is taken from the event.
refreshed :
    ((refresh_vault_list steward 5 client).0 ≡ ok (70 ∷ 71 ∷ []))
    × ((refresh_vault_list steward 5 client).1.known_vaults ≡ 70 ∷ 71 ∷ [])
    × (needs_refresh 6 (refresh_vault_list steward 5 client).1 ≡ false)
    × (needs_refresh 300005 (refresh_vault_list steward 5 client).1 ≡ true)
unfolding refresh_vault_list needs_refresh query_vault_from_chain
refreshed = (refl, refl, refl, refl)

-- A registered vault is answered without a call; cleared, it is not.
registered :
    ((get_vault steward 9 2 (register_vault 5 2 72 client)).0 ≡ ok 72)
    × (is_err (get_vault steward 9 2 (invalidate_cache 2 (register_vault 5 2 72 client))).0 ≡ true)
    × (is_err (get_vault steward 9 2 (clear_cache (register_vault 5 2 72 client))).0 ≡ true)
    × ((set_vault_addresses 5 (1 ∷ []) client).known_vaults ≡ 1 ∷ [])
unfolding get_vault register_vault invalidate_cache clear_cache set_vault_addresses
registered = (refl, refl, refl, refl)

emptied :
    ((invalidate_asset_cache 1 (get_index_assets describe steward 0 1 client).1).asset_cache ≡ [])
    × ((clear_asset_cache (get_index_assets describe steward 0 1 client).1).asset_cache ≡ [])
    × (get_index_asset_count describe steward 1 ≡ ok 1)
    × (unscale_asset_ids (101 * asset_id_scale ∷ []) ≡ 101 ∷ [])
unfolding invalidate_asset_cache clear_asset_cache get_index_assets get_index_asset_count
    unscale_asset_ids
emptied = (refl, refl, refl, refl)
