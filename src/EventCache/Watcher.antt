-- ===== src/EventCache/Watcher.antt =====
-- The watcher of libs/common/src/event_cache/watcher.rs, which polls and saves the cache. Whether a
-- save succeeds is a parameter of each call.
use Prim.Native.String.{String}
use vendor.Base.{ℕ, ◌-◌, Option, none, some, Bool, ◌||◌, ltb, if◌then◌else◌, Result, ok, err}
use vendor.EventCache.{EventCache, index_count, pair_count}
use vendor.EventCache.Indexer.{IndexerError, Node, full_sync}

-- The watcher: its cache, and what the file holds.
pub record EventWatcher : Type 0 where
  pub start_block : ℕ
  pub cache : EventCache
  pub file : Option EventCache

pub record PollResult : Type 0 where
  pub new_indices : ℕ
  pub new_pairs : ℕ
  pub last_index_block : ℕ
  pub last_pair_block : ℕ

unfoldable pub has_new_events : PollResult → Bool
has_new_events r = ltb 0 r.new_indices || ltb 0 r.new_pairs

pub data WatcherError : Type 0 where
  indexer_error : IndexerError → WatcherError
  cache_error : String → WatcherError
  stopped : WatcherError

-- The node and the file system that a poll meets; `none` is a save that succeeds.
pub record Surroundings : Type 0 where
  pub node : Node
  pub save_fails : Option String

-- `save(&self.cache)?`, then the result. A save that fails leaves the file as it was.
unfoldable pub save_then :
    Option String → PollResult → EventWatcher → Result PollResult WatcherError × EventWatcher
save_then none r w = (ok r, record w { file = some w.cache })
save_then (some e) r w = (err (cache_error e), w)

unfoldable pub initial_sync :
    Surroundings → EventWatcher → Result PollResult WatcherError × EventWatcher
unfolding save_then
initial_sync s w =
    let (result, c) = full_sync s.node w.start_block w.cache in
    let w' : EventWatcher = record w { cache = c } in
    elim result [
      | err e ↦ (err (indexer_error e), w')
      | ok r ↦
          save_then s.save_fails
            (record {
              new_indices = r.indices_added;
              new_pairs = r.pairs_added;
              last_index_block = r.last_index_block;
              last_pair_block = r.last_pair_block;
            })
            w'
    ]

-- Only new events are saved.
unfoldable pub save_if_new :
    Option String → PollResult → EventWatcher → Result PollResult WatcherError × EventWatcher
unfolding save_then has_new_events
save_if_new save_fails polled w =
    if has_new_events polled then save_then save_fails polled w else (ok polled, w)

unfoldable pub poll_once :
    Surroundings → EventWatcher → Result PollResult WatcherError × EventWatcher
unfolding save_if_new
poll_once s w =
    let (result, c) = full_sync s.node w.start_block w.cache in
    let w' : EventWatcher = record w { cache = c } in
    elim result [
      | err e ↦ (err (indexer_error e), w')
      | ok r ↦
          let polled : PollResult = record {
            new_indices = index_count c - index_count w.cache;
            new_pairs = pair_count c - pair_count w.cache;
            last_index_block = r.last_index_block;
            last_pair_block = r.last_pair_block;
          } in
          save_if_new s.save_fails polled w'
    ]
