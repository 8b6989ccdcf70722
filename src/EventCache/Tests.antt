-- ===== src/EventCache/Tests.antt =====
-- An index and a pair in one transaction each, and a node that fails once.
use vendor.Base.{◌≡◌, refl, true, false, [], ◌∷◌, none, some, ok, err}
use vendor.EventCache.{
  CachedIndex, new_cache, add_index, add_indices, add_pair, get_index, get_pair, get_pair_by_symbol,
  index_count, pair_count,
}
use vendor.EventCache.Indexer.{
  Node, IndexCreated, PairRegistered, EventLog, cached_index, rpc_error, sync_index_created_events,
  sync_pair_registry_events, full_sync,
}
use vendor.EventCache.Watcher.{
  EventWatcher, PollResult, Surroundings, indexer_error, has_new_events, initial_sync, poll_once,
}
use vendor.EventCache.Shared.{SharedEventCache, new_shared, from_cache, update}
use vendor.EventCache.Shared
use vendor.EventCache.WellFormed.{IsWellFormed, full_sync-IsWellFormed}
use vendor.EventCache.Saved.{poll_once-saved, poll_once-unsaved}

abbrev created : EventLog IndexCreated
created = record {
  decoded = ok (record { index_id = 3; name = "Layer one"; symbol = "L1"; vault = "0xaa" });
  block_number = some 7;
  transaction_hash = some "0x01";
}

-- Of the same transaction, so the cache does not take it.
abbrev again : EventLog IndexCreated
again = record {
  decoded = ok (record { index_id = 4; name = "Layer two"; symbol = "L2"; vault = "0xbb" });
  block_number = some 7;
  transaction_hash = some "0x01";
}

abbrev registered : EventLog PairRegistered
registered = record {
  decoded =
      ok (record { pair_id = 9; symbol = "BTC/USDC"; base_asset = "BTC"; quote_asset = "USDC" });
  block_number = some 8;
  transaction_hash = some "0x02";
}

abbrev node : Node
node = record {
  get_block_number = ok 8;
  index_logs = λ from to. ok (created ∷ again ∷ []);
  pair_logs = λ from to. ok (registered ∷ []);
}

abbrev failing_pairs : Node
failing_pairs = record node { pair_logs = λ from to. err "timeout" }

abbrev quiet : Node
quiet = record {
  get_block_number = ok 8;
  index_logs = λ from to. ok [];
  pair_logs = λ from to. ok [];
}

abbrev saving : Node → Surroundings
saving node = record { node = node; save_fails = none }

abbrev watcher : EventWatcher
watcher = record { start_block = 1; cache = new_cache; file = some new_cache }

abbrev first_index : CachedIndex
first_index =
    cached_index 7 "0x01"
      (record { index_id = 3; name = "Layer one"; symbol = "L1"; vault = "0xaa" })

abbrev second_index : CachedIndex
second_index =
    cached_index 7 "0x01"
      (record { index_id = 4; name = "Layer two"; symbol = "L2"; vault = "0xbb" })

full_sync-IsWellFormed_example : IsWellFormed (full_sync node 1 new_cache).1
unfolding new_cache
full_sync-IsWellFormed_example = full_sync-IsWellFormed node 1 new_cache (_, _)

abbrev polled : PollResult
polled = record { new_indices = 1; new_pairs = 1; last_index_block = 7; last_pair_block = 8 }

poll_once-saved_example :
    (poll_once (saving node) watcher).1.file ≡ some (poll_once (saving node) watcher).1.cache
unfolding poll_once full_sync sync_index_created_events sync_pair_registry_events new_cache
    index_count pair_count
poll_once-saved_example = poll_once-saved (saving node) watcher polled refl refl

poll_once-unsaved_example :
    let first = poll_once (saving failing_pairs) watcher in
    let second = poll_once (saving quiet) first.1 in
    (first.0 ≡ err (indexer_error (rpc_error "Failed to get logs: timeout")))
    × ((r : PollResult) × (has_new_events r ≡ false) × (second.0 ≡ ok r))
    × (second.1.cache ≡ add_indices (first_index ∷ second_index ∷ []) new_cache)
    × (second.1.file ≡ some new_cache)
unfolding sync_index_created_events sync_pair_registry_events new_cache
poll_once-unsaved_example =
    poll_once-unsaved (saving failing_pairs) (saving quiet) watcher
      (first_index ∷ second_index ∷ []) (rpc_error "Failed to get logs: timeout") refl refl refl
      refl

-- The second index of a transaction is not found.
lookups :
    let c = (full_sync node 1 new_cache).1 in
    (get_index 3 c ≡ some first_index)
    × (get_index 4 c ≡ none)
    × (index_count c ≡ 1)
    × (pair_count c ≡ 1)
    × (get_pair_by_symbol "ETH/USDC" c ≡ none)
    × (get_pair 8 c ≡ none)
unfolding full_sync sync_index_created_events sync_pair_registry_events new_cache get_index get_pair
    get_pair_by_symbol index_count pair_count
lookups = (refl, refl, refl, refl, refl, refl)

-- Adding an index twice adds it once.
added_twice :
    add_index first_index (add_index second_index new_cache) ≡ add_index second_index new_cache
unfolding add_index new_cache
added_twice = refl

added_pair :
    (add_pair
      (record {
        pair_id = 2;
        symbol = "A/B";
        base_asset = "A";
        quote_asset = "B";
        block_number = 5;
        tx_hash = "0x03";
      })
      new_cache).last_synced_block_pairs
    ≡ 5
unfolding add_pair new_cache
added_pair = refl

first_sync :
    (initial_sync (saving node) watcher).0
    ≡ ok (record { new_indices = 2; new_pairs = 1; last_index_block = 7; last_pair_block = 8 })
unfolding initial_sync full_sync sync_index_created_events sync_pair_registry_events new_cache
first_sync = refl

-- A shared cache answers as the cache does; one whose lock is poisoned, as an empty one.
abbrev shared : SharedEventCache
shared = (Shared.add_index first_index new_shared).1

abbrev broken : SharedEventCache
broken = record shared { poisoned = true }

shared_answers :
    (Shared.get_index 3 shared ≡ some first_index)
    × (Shared.get_all_indices shared ≡ first_index ∷ [])
    × (Shared.index_count shared ≡ 1)
    × (Shared.last_synced_block_indices shared ≡ 7)
    × (Shared.pair_count shared ≡ 0)
    × (Shared.get_all_pairs shared ≡ [])
    × (Shared.get_pair 3 shared ≡ none)
    × (Shared.get_pair_by_symbol "A/B" shared ≡ none)
    × (Shared.last_synced_block_pairs shared ≡ 0)
    × (update new_cache shared ≡ new_shared)
unfolding Shared.add_index Shared.get_index Shared.get_all_indices Shared.index_count
    Shared.last_synced_block_indices Shared.pair_count Shared.get_all_pairs Shared.get_pair
    Shared.get_pair_by_symbol Shared.last_synced_block_pairs update new_shared
shared_answers = (refl, refl, refl, refl, refl, refl, refl, refl, refl, refl)

broken_answers :
    (Shared.get_index 3 broken ≡ none)
    × (Shared.index_count broken ≡ 0)
    × (Shared.add_index second_index broken ≡ (false, broken))
    × (update new_cache broken ≡ broken)
unfolding Shared.add_index Shared.get_index Shared.index_count update
broken_answers = (refl, refl, refl, refl)
