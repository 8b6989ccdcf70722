-- ===== src/Chain/Steward/Caching.antt =====
-- What the caches of the Steward client answer.
use Prim.Native.String.{String}
use vendor.Base.{
  ℕ, ◌≡◌, ◌≢◌, refl, ap, ◌∙◌, ◌⊎◌, inl, inr, List, [], ◌∷◌, some, true, nat_beq, Result, ok, err,
  is_err, arith, Bool-cases, Option-cases, Result-cases,
}
use vendor.Base.Map.{nat_eq, lookup, lookup-insert}
use vendor.Chain.Listener.{ChainError}
use vendor.Chain.Steward.{
  AssetCacheEntry, StewardClient, Steward, is_fresh, decode_asset_ids, cache_assets,
  query_assets_from_chain, get_index_assets,
}

decode_asset_ids-ne-err : (bytes : List ℕ) (error : ChainError) → decode_asset_ids bytes ≢ err error
unfolding decode_asset_ids
decode_asset_ids-ne-err [] error = λ h. cc
decode_asset_ids-ne-err (b ∷ bs) error = λ h. cc

module _ (held : ℕ → List ℕ) where
  -- The contract holds these bytes for each index: a call fails or returns them.
  abbrev pub Holds : Steward → Type 0
  Holds steward =
      (i : ℕ)
      → (steward.get_index_assets i ≡ ok (held i)) ⊎ (is_err (steward.get_index_assets i) ≡ true)

  -- Every cached list is the one that the contract holds.
  abbrev pub IsCoherent : StewardClient → Type 0
  IsCoherent c =
      (i : ℕ) (entry : AssetCacheEntry)
      → lookup i c.asset_cache ≡ some entry
      → decode_asset_ids (held i) ≡ ok entry.asset_ids

  -- An answer is the list that the contract holds, or an error where the contract fails.
  abbrev pub Answers : Steward → ℕ → Result (List ℕ) ChainError → Type 0
  Answers steward i r =
      ((asset_ids : List ℕ) × (r ≡ ok asset_ids) × (decode_asset_ids (held i) ≡ ok asset_ids))
      ⊎ ((is_err r ≡ true) × (is_err (steward.get_index_assets i) ≡ true))

  cache_assets-IsCoherent :
      (now index_id : ℕ) (asset_ids : List ℕ) (c : StewardClient)
      → IsCoherent c
      → decode_asset_ids (held index_id) ≡ ok asset_ids
      → IsCoherent (cache_assets now index_id asset_ids c)
  unfolding cache_assets
  cache_assets-IsCoherent now index_id asset_ids c coherent e i entry found =
      elim (Bool-cases (nat_beq index_id i)) [
        | inl same ↦
            let same_id : index_id ≡ i = ground arith in
            let here : some (record { asset_ids = asset_ids; cached_at = now }) ≡ some entry =
              rw
                (
                  lookup-insert index_id i (record { asset_ids = asset_ids; cached_at = now })
                      c.asset_cache,
                  same,
                )
                at found in
            rw (← same_id) (e ∙ ap ok (cc))
        | inr other ↦ coherent i entry (
            rw
              (
                lookup-insert index_id i (record { asset_ids = asset_ids; cached_at = now })
                    c.asset_cache,
                other,
              )
              at found)
      ]

  module _ (describe : String → ℕ → String → String) (steward : Steward)
      (holds : Holds steward) where
    query_assets_from_chain-Answers :
        (now index_id : ℕ) (c : StewardClient)
        → IsCoherent c
        → Answers steward index_id (query_assets_from_chain describe steward now index_id c).0
          × IsCoherent (query_assets_from_chain describe steward now index_id c).1
    unfolding query_assets_from_chain
    query_assets_from_chain-Answers now index_id c coherent = elim (holds index_id) [
      | inl answer ↦ elim (Result-cases (decode_asset_ids (held index_id))) [
        | inl (asset_ids, e) ↦
            rw (answer, query_assets_from_chain, e)
              (
                inl (asset_ids, refl, refl),
                cache_assets-IsCoherent now index_id asset_ids c coherent e,
              )
        | inr (error, e) ↦ absurd (decode_asset_ids-ne-err (held index_id) error e)
      ]
      | inr failed ↦ elim (Result-cases (steward.get_index_assets index_id)) [
        | inl (bytes, e) ↦ cc
        | inr (error, e) ↦ rw (e, query_assets_from_chain) (inr (refl, refl), coherent)
      ]
    ]

    -- While the contract's lists do not change and every cached list is one of them, each answer of
    -- `get_index_assets`, from the cache or from the chain, is the list of the index, or an error where
    -- the contract fails, and the cache agrees with the contract again.
    pub get_index_assets-Answers :
        (now index_id : ℕ) (c : StewardClient)
        → IsCoherent c
        → Answers steward index_id (get_index_assets describe steward now index_id c).0
          × IsCoherent (get_index_assets describe steward now index_id c).1
    unfolding get_index_assets
    get_index_assets-Answers now index_id c coherent =
        let asked = query_assets_from_chain-Answers now index_id c coherent in
        elim (Option-cases (lookup index_id c.asset_cache)) [
          | inl e ↦ rw (e, get_index_assets) asked
          | inr (entry, e) ↦ elim (Bool-cases (is_fresh now entry.cached_at c.cache_ttl_secs)) [
            | inl fresh ↦
                rw (e, get_index_assets, fresh)
                  (inl (entry.asset_ids, refl, coherent index_id entry e), coherent)
            | inr stale ↦ rw (e, get_index_assets, stale) asked
          ]
        ]
