-- ===== src/EventCache.antt =====
-- libs/common/src/event_cache: the cache of contract events (types.rs).
pub mod Indexer
pub mod Watcher
pub mod WellFormed
pub mod Saved
pub mod Files
pub mod Shared
mod Tests
use Prim.Native.String.{String, ◌++◌ as str_append}
use vendor.Base.{
  ℕ, ◌+◌, ◌-◌, List, [], ◌∷◌, ◌++◌, Option, none, some, Bool, true, false, ◌||◌, ltb, nat_beq,
  if◌then◌else◌, length, unwrap_or, Result, ok, err,
}
use vendor.Base.Map.{string_eq, ◌==◌}

pub record CachedIndex : Type 0 where
  pub index_id : ℕ
  pub name : String
  pub symbol : String
  pub vault_address : String
  pub block_number : ℕ
  pub tx_hash : String

pub record CachedPair : Type 0 where
  pub pair_id : ℕ
  pub symbol : String
  pub base_asset : String
  pub quote_asset : String
  pub block_number : ℕ
  pub tx_hash : String

pub record EventCache : Type 0 where
  pub indices : List CachedIndex
  pub pairs : List CachedPair
  pub last_synced_block_indices : ℕ
  pub last_synced_block_pairs : ℕ

unfoldable pub new_cache : EventCache
new_cache = record {
  indices = [];
  pairs = [];
  last_synced_block_indices = 0;
  last_synced_block_pairs = 0;
}

-- What `add_index` and `add_pair` do alike, on the list and its last block.
module _ {A : Type 0} (tx : A → String) (block : A → ℕ) where
  abbrev pub is_known : String → List A → Bool
  is_known h [] = false
  is_known h (i ∷ is) = tx i == h || is_known h is

  unfoldable pub add_event : A → List A × ℕ → List A × ℕ
  add_event a (items, last) =
      if is_known (tx a) items
      then (items, last)
      else (items ++ a ∷ [], if ltb last (block a) then block a else last)

  -- `for event in events { cache.add(event) }`
  unfoldable pub add_events : List A → List A × ℕ → List A × ℕ
  unfolding add_event
  add_events [] s = s
  add_events (a ∷ rest) s = add_events rest (add_event a s)

abbrev pub index_tx : CachedIndex → String
index_tx i = i.tx_hash

abbrev pub index_block : CachedIndex → ℕ
index_block i = i.block_number

abbrev pub pair_tx : CachedPair → String
pair_tx p = p.tx_hash

abbrev pub pair_block : CachedPair → ℕ
pair_block p = p.block_number

unfoldable pub add_indices : List CachedIndex → EventCache → EventCache
unfolding add_events
add_indices new c =
    let (indices, last) =
      add_events index_tx index_block new (c.indices, c.last_synced_block_indices) in
    record c { indices = indices; last_synced_block_indices = last }

unfoldable pub add_pairs : List CachedPair → EventCache → EventCache
unfolding add_events
add_pairs new c =
    let (pairs, last) = add_events pair_tx pair_block new (c.pairs, c.last_synced_block_pairs) in
    record c { pairs = pairs; last_synced_block_pairs = last }

unfoldable pub add_index : CachedIndex → EventCache → EventCache
unfolding add_indices
add_index index c = add_indices (index ∷ []) c

unfoldable pub add_pair : CachedPair → EventCache → EventCache
unfolding add_pairs
add_pair pair c = add_pairs (pair ∷ []) c

-- `find` on the cached events.
abbrev pub find_event : {A : Type 0} → (A → Bool) → List A → Option A
find_event p [] = none
find_event p (x ∷ xs) = if p x then some x else find_event p xs

unfoldable pub get_index : ℕ → EventCache → Option CachedIndex
get_index index_id c = find_event (λ i. nat_beq i.index_id index_id) c.indices

unfoldable pub get_pair : ℕ → EventCache → Option CachedPair
get_pair pair_id c = find_event (λ p. nat_beq p.pair_id pair_id) c.pairs

unfoldable pub get_pair_by_symbol : String → EventCache → Option CachedPair
get_pair_by_symbol symbol c = find_event (λ p. p.symbol == symbol) c.pairs

unfoldable pub index_count : EventCache → ℕ
index_count c = length c.indices

unfoldable pub pair_count : EventCache → ℕ
pair_count c = length c.pairs
