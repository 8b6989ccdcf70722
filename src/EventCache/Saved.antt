-- ===== src/EventCache/Saved.antt =====
-- When the file holds the cache.
use Prim.Native.String.{String}
use vendor.Base.{
  ℕ, ◌-◌, ◌≤◌, ◌≡◌, refl, sym, ap, ◌∙◌, inl, inr, List, [], ◌∷◌, Option, none, some, false, length,
  length-append, Result, ok, err, arith, Bool-cases, Result-cases,
}
use vendor.EventCache.{
  CachedIndex, CachedPair, EventCache, is_known, add_event, add_events, add_indices, add_pairs,
  index_tx, index_block, pair_tx, pair_block, index_count, pair_count,
}
use vendor.EventCache.Indexer.{
  IndexerError, Node, SyncResult, sync_index_created_events, sync_pair_registry_events, sync_pairs,
  next_block, full_sync,
}
use vendor.EventCache.Watcher.{
  EventWatcher, PollResult, Surroundings, WatcherError, indexer_error, has_new_events, save_then,
  save_if_new, poll_once,
}

-- The list grows, or all stays as it was.
abbrev Grows : {A : Type 0} → List A × ℕ → List A × ℕ → Type 0
Grows s t = (length s.0 ≤ length t.0) × (length t.0 ≡ length s.0 → t ≡ s)

module _ {A : Type 0} (tx : A → String) (block : A → ℕ) where
  add_event-Grows : (a : A) (s : List A × ℕ) → Grows s (add_event tx block a s)
  unfolding add_event
  add_event-Grows a (items, last) = elim (Bool-cases (is_known tx block (tx a) items)) [
    | inl old ↦ rw (old, add_event) (omega arith, λ e. refl)
    | inr new ↦
        rw (new, add_event)
          (
            omega (arith, length-append items (a ∷ [])),
            λ e. absurd (omega (arith, length-append items (a ∷ []))),
          )
  ]

  add_events-Grows : (new : List A) (s : List A × ℕ) → Grows s (add_events tx block new s)
  unfolding add_events
  add_events-Grows [] s = (omega arith, λ e. refl)
  add_events-Grows (a ∷ rest) s =
      let one = add_event-Grows a s in
      let more = add_events-Grows rest (add_event tx block a s) in
      (
        omega (arith, one.0, more.0),
        λ e. more.1 (omega (arith, one.0, more.0, e)) ∙ one.1 (omega (arith, one.0, more.0, e)),
      )

-- The same of the two counts of a cache.
abbrev GrowsBoth : EventCache → EventCache → Type 0
GrowsBoth c c' =
    (index_count c ≤ index_count c')
    × (pair_count c ≤ pair_count c')
    × (index_count c' ≡ index_count c → pair_count c' ≡ pair_count c → c' ≡ c)

add_indices-GrowsBoth : (new : List CachedIndex) (c : EventCache) → GrowsBoth c (add_indices new c)
unfolding add_indices index_count pair_count
add_indices-GrowsBoth new c =
    let g = add_events-Grows index_tx index_block new (c.indices, c.last_synced_block_indices) in
    (
      g.0,
      omega arith,
      λ e f.
          ap
            (λ (s : List CachedIndex × ℕ). record c {
              indices = s.0;
              last_synced_block_indices = s.1;
            })
            (g.1 e),
    )

add_pairs-GrowsBoth : (new : List CachedPair) (c : EventCache) → GrowsBoth c (add_pairs new c)
unfolding add_pairs index_count pair_count
add_pairs-GrowsBoth new c =
    let g = add_events-Grows pair_tx pair_block new (c.pairs, c.last_synced_block_pairs) in
    (
      omega arith,
      g.0,
      λ e f.
          ap (λ (s : List CachedPair × ℕ). record c { pairs = s.0; last_synced_block_pairs = s.1 })
            (g.1 f),
    )

GrowsBoth-trans : (a b c : EventCache) → GrowsBoth a b → GrowsBoth b c → GrowsBoth a c
GrowsBoth-trans a b c p q = (
  omega (arith, p.0, q.0),
  omega (arith, p.1, q.1),
  λ e f.
      q.2 (omega (arith, p.0, q.0, e)) (omega (arith, p.1, q.1, f))
      ∙ p.2 (omega (arith, p.0, q.0, e)) (omega (arith, p.1, q.1, f)),
)

sync_pairs-GrowsBoth :
    (node : Node) (start added : ℕ) (c : EventCache) → GrowsBoth c (sync_pairs node start added c).1
unfolding sync_pairs
sync_pairs-GrowsBoth node start added c =
    elim (Result-cases (sync_pair_registry_events node start)) [
      | inl (new, e) ↦ rw (e, sync_pairs) (add_pairs-GrowsBoth new c)
      | inr (error, e) ↦ rw (e, sync_pairs) (omega arith, omega arith, λ p q. refl)
    ]

full_sync-GrowsBoth :
    (node : Node) (start_block : ℕ) (c : EventCache) → GrowsBoth c (full_sync node start_block c).1
unfolding full_sync
full_sync-GrowsBoth node start_block c =
    elim (Result-cases
      (sync_index_created_events node (next_block c.last_synced_block_indices start_block))) [
        | inl (new, e) ↦
            rw (e, full_sync)
              (GrowsBoth-trans c (add_indices new c) _ (add_indices-GrowsBoth new c)
                (sync_pairs-GrowsBoth node _ _ (add_indices new c)))
        | inr (error, e) ↦ rw (e, full_sync) (omega arith, omega arith, λ p q. refl)
      ]

save_if_new-saved :
    (save_fails : Option String) (p r : PollResult) (w : EventWatcher)
    → (has_new_events p ≡ false → w.file ≡ some w.cache)
    → (save_if_new save_fails p w).0 ≡ ok r
    → (save_if_new save_fails p w).1.file ≡ some (save_if_new save_fails p w).1.cache
unfolding save_if_new save_then
save_if_new-saved none p r w old done = elim (Bool-cases (has_new_events p)) [
  | inl new ↦ rw (new, save_if_new)
  | inr nothing ↦ rw (nothing, save_if_new) (old nothing)
]
save_if_new-saved (some e) p r w old done = elim (Bool-cases (has_new_events p)) [
  | inl new ↦ cc (done, new)
  | inr nothing ↦ rw (nothing, save_if_new) (old nothing)
]

-- Where the file holds the cache, it does so again after every poll that succeeds, although a poll
-- that finds nothing new does not save.
pub poll_once-saved :
    (s : Surroundings) (w : EventWatcher) (r : PollResult)
    → w.file ≡ some w.cache
    → (poll_once s w).0 ≡ ok r
    → (poll_once s w).1.file ≡ some (poll_once s w).1.cache
unfolding poll_once has_new_events
poll_once-saved s w r saved done =
    let synced = full_sync s.node w.start_block w.cache in
    let grows = full_sync-GrowsBoth s.node w.start_block w.cache in
    elim (Result-cases synced.0) [
      | inr (error, e) ↦ cc (rw (e, poll_once) at done)
      | inl (result, e) ↦
          let polled : PollResult = record {
            new_indices = index_count synced.1 - index_count w.cache;
            new_pairs = pair_count synced.1 - pair_count w.cache;
            last_index_block = result.last_index_block;
            last_pair_block = result.last_pair_block;
          } in
          rw (e, poll_once)
            (save_if_new-saved s.save_fails polled r (record w { cache = synced.1 })
              (λ (nothing : has_new_events polled ≡ false).
                saved
                ∙ ap some (
                    sym (
                      grows.2 (ground (arith, grows.0, nothing))
                        (ground (arith, grows.1, nothing)))))
              (rw (e, poll_once) at done))
    ]

full_sync-fails :
    (node : Node) (start_block : ℕ) (c : EventCache) (new : List CachedIndex) (error : IndexerError)
    → sync_index_created_events node (next_block c.last_synced_block_indices start_block) ≡ ok new
    → sync_pair_registry_events node (next_block c.last_synced_block_pairs start_block) ≡ err error
    → full_sync node start_block c ≡ (err error, add_indices new c)
unfolding full_sync sync_pairs
full_sync-fails node start_block c new error found failed =
    rw (found, full_sync, failed, sync_pairs)

full_sync-nothing :
    (node : Node) (start_block : ℕ) (c : EventCache)
    → sync_index_created_events node (next_block c.last_synced_block_indices start_block) ≡ ok []
    → sync_pair_registry_events node (next_block c.last_synced_block_pairs start_block) ≡ ok []
    → (r : SyncResult) × (full_sync node start_block c ≡ (ok r, c))
unfolding full_sync sync_pairs add_indices add_pairs
full_sync-nothing node start_block c found found' = (
  (record {
    indices_added = 0;
    pairs_added = 0;
    last_index_block = c.last_synced_block_indices;
    last_pair_block = c.last_synced_block_pairs;
  }),
  rw (found, full_sync, found', sync_pairs),
)

poll_once-nothing :
    (t : Surroundings) (w : EventWatcher) (r : SyncResult)
    → full_sync t.node w.start_block w.cache ≡ (ok r, w.cache)
    → (p : PollResult) × (has_new_events p ≡ false) × (poll_once t w ≡ (ok p, w))
unfolding poll_once save_if_new has_new_events
poll_once-nothing t w r e =
    let polled : PollResult = record {
      new_indices = index_count w.cache - index_count w.cache;
      new_pairs = pair_count w.cache - pair_count w.cache;
      last_index_block = r.last_index_block;
      last_pair_block = r.last_pair_block;
    } in
    let i : index_count w.cache - index_count w.cache ≡ 0 = omega arith in
    let p : pair_count w.cache - pair_count w.cache ≡ 0 = omega arith in
    let quiet : has_new_events polled ≡ false = ground (arith, i, p) in
    let before = ap (λ (out : Result SyncResult IndexerError × EventCache). out.0) e in
    let after = ap (λ (out : Result SyncResult IndexerError × EventCache). out.1) e in
    (polled, quiet, rw (before, poll_once, after, save_if_new, quiet))

-- A poll that finds new indices and then fails on the pairs keeps the indices in memory and does not
-- save them. If the next poll finds nothing new, it succeeds and reports no new events, but the
-- file is still as before, without the indices.
pub poll_once-unsaved :
    (s t : Surroundings) (w : EventWatcher) (new : List CachedIndex) (error : IndexerError)
    → sync_index_created_events s.node (next_block w.cache.last_synced_block_indices w.start_block)
      ≡ ok new
    → sync_pair_registry_events s.node (next_block w.cache.last_synced_block_pairs w.start_block)
      ≡ err error
    → sync_index_created_events t.node
        (next_block (add_indices new w.cache).last_synced_block_indices w.start_block)
      ≡ ok []
    → sync_pair_registry_events t.node (next_block w.cache.last_synced_block_pairs w.start_block)
      ≡ ok []
    → let first = poll_once s w in
      let second = poll_once t first.1 in
      (first.0 ≡ err (indexer_error error))
      × ((r : PollResult) × (has_new_events r ≡ false) × (second.0 ≡ ok r))
      × (second.1.cache ≡ add_indices new w.cache)
      × (second.1.file ≡ w.file)
unfolding add_indices poll_once
poll_once-unsaved s t w new error found failed found' failed' =
    let w' : EventWatcher = record w { cache = add_indices new w.cache } in
    let failing = full_sync-fails s.node w.start_block w.cache new error found failed in
    let first : poll_once s w ≡ (err (indexer_error error), w') = rw (
      ap (λ (out : Result SyncResult IndexerError × EventCache). out.0) failing,
      poll_once,
      ap (λ (out : Result SyncResult IndexerError × EventCache). out.1) failing,
    ) in
    let (r, synced) =
      full_sync-nothing t.node w.start_block (add_indices new w.cache) found' failed' in
    let (p, quiet, polled) = poll_once-nothing t w' r synced in
    let second : poll_once t (poll_once s w).1 ≡ (ok p, w') =
      ap (λ (out : Result PollResult WatcherError × EventWatcher). poll_once t out.1) first
      ∙ polled in
    (
      ap (λ (out : Result PollResult WatcherError × EventWatcher). out.0) first,
      (p, quiet, ap (λ (out : Result PollResult WatcherError × EventWatcher). out.0) second),
      ap (λ (out : Result PollResult WatcherError × EventWatcher). out.1.cache) second,
      ap (λ (out : Result PollResult WatcherError × EventWatcher). out.1.file) second,
    )
