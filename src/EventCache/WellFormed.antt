-- ===== src/EventCache/WellFormed.antt =====
-- What the indexer keeps of the cache.
use Prim.Native.String.{String}
use vendor.Base.{
  ℕ, ◌≤◌, ◌≡◌, refl, inl, inr, List, [], ◌∷◌, ◌++◌, false, ◌||◌, ltb, if◌then◌else◌, All, arith,
  Bool-cases, Result-cases,
}
use vendor.Base.Map.{string_eq}
use vendor.EventCache.{
  CachedIndex, CachedPair, EventCache, is_known, add_event, add_events, add_indices, add_pairs,
  index_tx, index_block, pair_tx, pair_block,
}
use vendor.EventCache.Indexer.{
  Node, sync_index_created_events, sync_pair_registry_events, sync_pairs, next_block, full_sync,
}

module _ {A : Type 0} (tx : A → String) (block : A → ℕ) where
  -- No transaction is listed twice.
  abbrev pub IsDistinct : List A → Type 0
  IsDistinct [] = Unit
  IsDistinct (a ∷ rest) = (is_known tx block (tx a) rest ≡ false) × IsDistinct rest

  -- Nor does an event lie after the last synced block.
  abbrev pub IsSynced : List A × ℕ → Type 0
  IsSynced (items, last) = IsDistinct items × All (λ a. block a ≤ last) items

  is_known-append :
      (h : String) (xs ys : List A)
      → is_known tx block h (xs ++ ys) ≡ (is_known tx block h xs || is_known tx block h ys)
  is_known-append h [] ys = refl
  is_known-append h (x ∷ xs) ys = ground (arith, is_known-append h xs ys)

  push-IsDistinct :
      (a : A) (xs : List A)
      → is_known tx block (tx a) xs ≡ false
      → IsDistinct xs
      → IsDistinct (xs ++ a ∷ [])
  push-IsDistinct a [] new d = (refl, tt)
  push-IsDistinct a (x ∷ xs) new (fresh, d) = ground (
    arith,
    is_known-append (tx x) xs (a ∷ []),
    push-IsDistinct a xs,
    string_eq.same_iff (tx a) (tx x),
    string_eq.same_iff (tx x) (tx a),
  )

  push-All :
      (a : A) (xs : List A) (last next : ℕ)
      → All (λ b. block b ≤ last) xs
      → last ≤ next
      → block a ≤ next
      → All (λ b. block b ≤ next) (xs ++ a ∷ [])
  push-All a [] last next h le here = (here, tt)
  push-All a (x ∷ xs) last next h le here = (omega arith, push-All a xs last next h.1 le here)

  add_event-IsSynced :
      (a : A) (items : List A) (last : ℕ)
      → IsSynced (items, last)
      → IsSynced (add_event tx block a (items, last))
  unfolding add_event
  add_event-IsSynced a items last s = elim (Bool-cases (is_known tx block (tx a) items)) [
    | inl old ↦ rw (old, add_event) s
    | inr new ↦
        let next : ℕ = if ltb last (block a) then block a else last in
        rw (new, add_event)
          (
            push-IsDistinct a items new s.0,
            push-All a items last next s.1 (ground arith) (ground arith),
          )
  ]

  pub add_events-IsSynced :
      (new items : List A) (last : ℕ)
      → IsSynced (items, last)
      → IsSynced (add_events tx block new (items, last))
  unfolding add_events
  add_events-IsSynced [] items last s = s
  add_events-IsSynced (a ∷ rest) items last s =
      let next = add_event tx block a (items, last) in
      add_events-IsSynced rest next.0 next.1 (add_event-IsSynced a items last s)

-- In both lists no transaction is listed twice and no event lies after the last synced block.
abbrev pub IsWellFormed : EventCache → Type 0
IsWellFormed c =
    IsSynced index_tx index_block (c.indices, c.last_synced_block_indices)
    × IsSynced pair_tx pair_block (c.pairs, c.last_synced_block_pairs)

add_indices-IsWellFormed :
    (new : List CachedIndex) (c : EventCache) → IsWellFormed c → IsWellFormed (add_indices new c)
unfolding add_indices
add_indices-IsWellFormed new c w =
    (add_events-IsSynced index_tx index_block new c.indices c.last_synced_block_indices w.0, w.1)

add_pairs-IsWellFormed :
    (new : List CachedPair) (c : EventCache) → IsWellFormed c → IsWellFormed (add_pairs new c)
unfolding add_pairs
add_pairs-IsWellFormed new c w =
    (w.0, add_events-IsSynced pair_tx pair_block new c.pairs c.last_synced_block_pairs w.1)

sync_pairs-IsWellFormed :
    (node : Node) (start added : ℕ) (c : EventCache)
    → IsWellFormed c
    → IsWellFormed (sync_pairs node start added c).1
unfolding sync_pairs
sync_pairs-IsWellFormed node start added c w =
    elim (Result-cases (sync_pair_registry_events node start)) [
      | inl (new, e) ↦ rw (e, sync_pairs) (add_pairs-IsWellFormed new c w)
      | inr (error, e) ↦ rw (e, sync_pairs) w
    ]

-- Whatever the node answers, also where a sync fails half-way, it keeps the cache well-formed: in both
-- lists no transaction is listed twice and no event lies after the last synced block.
pub full_sync-IsWellFormed :
    (node : Node) (start_block : ℕ) (c : EventCache)
    → IsWellFormed c
    → IsWellFormed (full_sync node start_block c).1
unfolding full_sync
full_sync-IsWellFormed node start_block c w =
    elim (Result-cases
      (sync_index_created_events node (next_block c.last_synced_block_indices start_block))) [
        | inl (new, e) ↦
            rw (e, full_sync)
              (sync_pairs-IsWellFormed node _ _ (add_indices new c)
                (add_indices-IsWellFormed new c w))
        | inr (error, e) ↦ rw (e, full_sync) w
      ]
