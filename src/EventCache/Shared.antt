-- ===== src/EventCache/Shared.antt =====
-- `SharedEventCache` of libs/common/src/event_cache/reader.rs. A lock that a panic has poisoned
-- answers as an empty cache does and takes nothing.
use Prim.Native.String.{String}
use vendor.Base.{ℕ, List, [], Option, none, Bool, true, false, if◌then◌else◌}
use vendor.EventCache.{
  CachedIndex, CachedPair, EventCache, new_cache, add_index as cache_add_index,
  add_pair as cache_add_pair, get_index as cache_get_index, get_pair as cache_get_pair,
  get_pair_by_symbol as cache_get_pair_by_symbol, index_count as cache_index_count,
  pair_count as cache_pair_count,
}

pub record SharedEventCache : Type 0 where
  pub poisoned : Bool
  pub cache : EventCache

unfoldable pub from_cache : EventCache → SharedEventCache
from_cache cache = record { poisoned = false; cache = cache }

unfoldable pub new_shared : SharedEventCache
unfolding from_cache new_cache
new_shared = from_cache new_cache

unfoldable pub update : EventCache → SharedEventCache → SharedEventCache
update new c = if c.poisoned then c else record c { cache = new }

unfoldable pub add_index : CachedIndex → SharedEventCache → Bool × SharedEventCache
unfolding cache_add_index
add_index index c =
    if c.poisoned then (false, c) else (true, record c { cache = cache_add_index index c.cache })

unfoldable pub add_pair : CachedPair → SharedEventCache → Bool × SharedEventCache
unfolding cache_add_pair
add_pair pair c =
    if c.poisoned then (false, c) else (true, record c { cache = cache_add_pair pair c.cache })

-- `self.cache.read().ok()`, with what a poisoned lock gives.
abbrev pub read : {A : Type 0} → A → (EventCache → A) → SharedEventCache → A
read poisoned get c = if c.poisoned then poisoned else get c.cache

unfoldable pub get_index : ℕ → SharedEventCache → Option CachedIndex
unfolding cache_get_index
get_index index_id = read none (cache_get_index index_id)

unfoldable pub get_all_indices : SharedEventCache → List CachedIndex
get_all_indices = read [] (λ c. c.indices)

unfoldable pub get_pair : ℕ → SharedEventCache → Option CachedPair
unfolding cache_get_pair
get_pair pair_id = read none (cache_get_pair pair_id)

unfoldable pub get_pair_by_symbol : String → SharedEventCache → Option CachedPair
unfolding cache_get_pair_by_symbol
get_pair_by_symbol symbol = read none (cache_get_pair_by_symbol symbol)

unfoldable pub get_all_pairs : SharedEventCache → List CachedPair
get_all_pairs = read [] (λ c. c.pairs)

unfoldable pub index_count : SharedEventCache → ℕ
unfolding cache_index_count
index_count = read 0 cache_index_count

unfoldable pub pair_count : SharedEventCache → ℕ
unfolding cache_pair_count
pair_count = read 0 cache_pair_count

unfoldable pub last_synced_block_indices : SharedEventCache → ℕ
last_synced_block_indices = read 0 (λ c. c.last_synced_block_indices)

unfoldable pub last_synced_block_pairs : SharedEventCache → ℕ
last_synced_block_pairs = read 0 (λ c. c.last_synced_block_pairs)
