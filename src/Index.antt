-- ===== src/Index.antt =====
-- `IndexMapper` of bin/keeper/src/index/mapper.rs. A weight is a floating-point number that is only
-- stored, so its type is a parameter.
pub mod AssetIds
mod Tests
use Prim.Native.String.{String}
use vendor.Base.{
  ℕ, List, [], ◌∷◌, ◌++◌, Option, none, some, Bool, true, false, nat_beq, if◌then◌else◌, length,
  map, map_option,
}
use vendor.Base.Map.{Map, nat_eq, lookup, insert}
use vendor.Accumulator.Processable.{sort}
use vendor.EventCache.{CachedIndex}
use vendor.EventCache.Shared.{SharedEventCache, get_index as shared_get_index}

module _ (Weight : Type 0) where
  pub record AssetWeight : Type 0 where
    pub asset_id : ℕ
    pub weight : Weight

  pub record IndexConfig : Type 0 where
    pub index_id : ℕ
    pub name : String
    pub assets : List AssetWeight

  abbrev pub Indices : Type 0
  Indices = Map ℕ IndexConfig

module _ {Weight : Type 0} where
  unfoldable pub add_index : IndexConfig Weight → Indices Weight → Indices Weight
  add_index config indices = insert config.index_id config indices

  -- The loop of `load_from_file`, once the file is parsed.
  unfoldable pub add_all : List (IndexConfig Weight) → Indices Weight → Indices Weight
  unfolding add_index
  add_all [] indices = indices
  add_all (config ∷ configs) indices = add_all configs (add_index config indices)

  unfoldable pub load : List (IndexConfig Weight) → Indices Weight
  unfolding add_all
  load configs = add_all configs []

  unfoldable pub get_index : ℕ → Indices Weight → Option (IndexConfig Weight)
  get_index index_id indices = lookup index_id indices

  abbrev pub config_assets : IndexConfig Weight → List ℕ
  config_assets config = map (λ (a : AssetWeight Weight). a.asset_id) config.assets

  unfoldable pub get_index_assets : ℕ → Indices Weight → Option (List ℕ)
  get_index_assets index_id indices = map_option config_assets (lookup index_id indices)

  -- The `flat_map` over all indices.
  unfoldable pub listed_assets : Indices Weight → List ℕ
  listed_assets [] = []
  listed_assets ((_, config) ∷ rest) = config_assets config ++ listed_assets rest

  unfoldable pub get_all_index_ids : Indices Weight → List ℕ
  get_all_index_ids indices = map (λ (e : ℕ × IndexConfig Weight). e.0) indices

  unfoldable pub count_indices : Indices Weight → ℕ
  count_indices indices = length indices

-- The mapper's event cache, where it has one.
unfoldable pub get_cached_index : ℕ → Option SharedEventCache → Option CachedIndex
unfolding shared_get_index
get_cached_index index_id none = none
get_cached_index index_id (some c) = shared_get_index index_id c

unfoldable pub has_cached_index : ℕ → Option SharedEventCache → Bool
unfolding get_cached_index
has_cached_index index_id event_cache = elim (get_cached_index index_id event_cache) [
  | none ↦ false
  | some _ ↦ true
]

-- `dedup`, on neighbours; `dedup_after n` drops what equals `n` at the front.
unfoldable pub dedup_after : ℕ → List ℕ → List ℕ
dedup_after n [] = []
dedup_after n (k ∷ ks) = let rest = dedup_after k ks in if nat_beq k n then rest else k ∷ rest

unfoldable pub dedup : List ℕ → List ℕ
unfolding dedup_after
dedup [] = []
dedup (n ∷ ns) = n ∷ dedup_after n ns

unfoldable pub get_all_asset_ids : {Weight : Type 0} → Indices Weight → List ℕ
unfolding listed_assets dedup
get_all_asset_ids indices = dedup (sort (listed_assets indices))
