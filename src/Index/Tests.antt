-- ===== src/Index/Tests.antt =====
-- Two indices that share an asset.

use vendor.Base.{ℕ, ◌≡◌, refl, [], ◌∷◌, some, none, false, contains}
use vendor.Base.Map.{nat_eq}
use vendor.EventCache.Shared.{new_shared}
use vendor.Index.{
  get_cached_index, has_cached_index, AssetWeight, Indices, load, get_index, get_index_assets,
  get_all_index_ids, count_indices, get_all_asset_ids,
}
use vendor.Index.AssetIds.{is_listed, get_all_asset_ids-IsAscending}
use vendor.Base.{IsAscending}

abbrev weighed : ℕ → AssetWeight ℕ
weighed asset_id = record { asset_id = asset_id; weight = 1 }

abbrev two : Indices ℕ
two =
    (1, record { index_id = 1; name = "A"; assets = weighed 103 ∷ weighed 101 ∷ [] })
    ∷ (2, record { index_id = 2; name = "B"; assets = weighed 102 ∷ weighed 101 ∷ [] })
    ∷ []

get_all_asset_ids-IsAscending_example :
    IsAscending (get_all_asset_ids two)
    × ((a : ℕ) → contains a (get_all_asset_ids two) ≡ is_listed a two)
get_all_asset_ids-IsAscending_example = get_all_asset_ids-IsAscending two

lookups :
    (get_index_assets 2 two ≡ some (102 ∷ 101 ∷ []))
    × (get_index_assets 3 two ≡ none)
    × (get_all_index_ids two ≡ 1 ∷ 2 ∷ [])
    × (count_indices two ≡ 2)
unfolding get_index_assets get_all_index_ids count_indices
lookups = (refl, refl, refl, refl)

-- A configuration that is loaded twice is kept once.
loaded :
    load (
      record { index_id = 1; name = "A"; assets = weighed 5 ∷ [] }
      ∷ record { index_id = 1; name = "B"; assets = weighed 6 ∷ [] }
      ∷ [])
    ≡ (1, record { index_id = 1; name = "B"; assets = weighed 6 ∷ [] }) ∷ []
unfolding load
loaded = refl

found :
    get_index 1 two
    ≡ some (record { index_id = 1; name = "A"; assets = weighed 103 ∷ weighed 101 ∷ [] })
unfolding get_index
found = refl

no_event_cache :
    (get_cached_index 1 none ≡ none)
    × (has_cached_index 1 none ≡ false)
    × (has_cached_index 1 (some new_shared) ≡ false)
unfolding get_cached_index has_cached_index new_shared
no_event_cache = (refl, refl, refl)
