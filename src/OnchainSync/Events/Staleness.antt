-- ===== src/OnchainSync/Events/Staleness.antt =====
-- When a quote counts as stale.
use vendor.Base.{
  ℕ, ◌+◌, ◌-◌, ◌≤◌, ◌≡◌, ◌↔◌, ◌⊎◌, inl, inr, List, [], ◌∷◌, Option, none, some, Bool, true, false,
  ltb, nat_beq, ok, arith, Bool-cases, Result-cases, Option-cases,
}
use vendor.EventCache.Indexer.{EventLog}
use vendor.OnchainSync.{IndexEvent, Castle}
use vendor.OnchainSync.Events.{
  later, latest_update, latest_loop, get_quote_last_updated, is_older, is_quote_stale,
}

-- The log can be decoded, and is an event of the index in block `b`.
abbrev pub Updates : (index_id b : ℕ) → EventLog IndexEvent → Type 0
Updates index_id b log =
    (event : IndexEvent) × (log.decoded ≡ ok event)
    × (event.index_id ≡ index_id)
    × (log.block_number ≡ some b)

abbrev pub IsUpdatedAt : (index_id b : ℕ) → List (EventLog IndexEvent) → Type 0
IsUpdatedAt index_id b [] = ⊥
IsUpdatedAt index_id b (log ∷ logs) = Updates index_id b log ⊎ IsUpdatedAt index_id b logs

module _ (index_id : ℕ) where
  latest_update-found :
      (log : EventLog IndexEvent) (latest : Option ℕ) (b : ℕ)
      → latest_update index_id log latest ≡ some b
      → Updates index_id b log ⊎ (latest ≡ some b)
  unfolding latest_update
  latest_update-found log latest b h = elim (Result-cases log.decoded) [
    | inr (e, failed) ↦ inr (rw (failed, latest_update) at h)
    | inl (event, found) ↦ elim (Bool-cases (nat_beq event.index_id index_id)) [
      | inr other ↦ inr (rw (found, latest_update, other) at h)
      | inl same ↦ elim (Option-cases log.block_number) [
        | inl unknown ↦ inr (rw (found, latest_update, same, unknown) at h)
        | inr (block, known) ↦ elim (Option-cases latest) [
          | inl first ↦
              inl (event, found, ground (arith, same), ground (arith, found, same, known, first, h))
          | inr (a, before) ↦ elim (Bool-cases (ltb a block)) [
            | inl less ↦ inl (
              event,
              found,
              ground (arith, same),
              ground (arith, found, same, known, before, h, less),
            )
            | inr more ↦ inr (ground (arith, found, same, known, before, h, more))
          ]
        ]
      ]
    ]
  ]

  latest_update-keeps :
      (log : EventLog IndexEvent) (latest : Option ℕ) (b : ℕ)
      → latest ≡ some b
      → (m : ℕ) × (latest_update index_id log latest ≡ some m) × (b ≤ m)
  unfolding latest_update
  latest_update-keeps log latest b h = elim (Result-cases log.decoded) [
    | inr (e, failed) ↦ (b, rw (failed, latest_update) h, omega arith)
    | inl (event, found) ↦ elim (Bool-cases (nat_beq event.index_id index_id)) [
      | inr other ↦ (b, rw (found, latest_update, other) h, omega arith)
      | inl same ↦ elim (Option-cases log.block_number) [
        | inl unknown ↦ (b, rw (found, latest_update, same, unknown) h, omega arith)
        | inr (block, known) ↦
            (later (some b) block, rw (found, latest_update, same, known, h), ground arith)
      ]
    ]
  ]

  latest_update-takes :
      (log : EventLog IndexEvent) (latest : Option ℕ) (b : ℕ)
      → Updates index_id b log
      → (m : ℕ) × (latest_update index_id log latest ≡ some m) × (b ≤ m)
  unfolding latest_update
  latest_update-takes log none b (event, found, same, known) =
      let same' : nat_beq event.index_id index_id ≡ true = ground (arith, same) in
      (b, rw (found, latest_update, same', known), omega arith)
  latest_update-takes log (some a) b (event, found, same, known) =
      let same' : nat_beq event.index_id index_id ≡ true = ground (arith, same) in
      (later (some a) b, rw (found, latest_update, same', known), ground arith)

  latest_loop-found :
      (logs : List (EventLog IndexEvent)) (latest : Option ℕ) (b : ℕ)
      → latest_loop index_id logs latest ≡ some b
      → IsUpdatedAt index_id b logs ⊎ (latest ≡ some b)
  unfolding latest_loop
  latest_loop-found [] latest b h = inr h
  latest_loop-found (log ∷ logs) latest b h = elim (latest_loop-found logs _ b h) [
    | inl u ↦ inl (inr u)
    | inr e ↦ elim (latest_update-found log latest b e) [
      | inl u ↦ inl (inl u)
      | inr before ↦ inr before
    ]
  ]

  latest_loop-keeps :
      (logs : List (EventLog IndexEvent)) (latest : Option ℕ) (b : ℕ)
      → latest ≡ some b
      → (m : ℕ) × (latest_loop index_id logs latest ≡ some m) × (b ≤ m)
  unfolding latest_loop
  latest_loop-keeps [] latest b h = (b, h, omega arith)
  latest_loop-keeps (log ∷ logs) latest b h =
      let (a, e, le) = latest_update-keeps log latest b h in
      let (m, e', le') = latest_loop-keeps logs _ a e in (m, e', omega arith)

  latest_loop-takes :
      (logs : List (EventLog IndexEvent)) (latest : Option ℕ) (b : ℕ)
      → IsUpdatedAt index_id b logs
      → (m : ℕ) × (latest_loop index_id logs latest ≡ some m) × (b ≤ m)
  unfolding latest_loop
  latest_loop-takes [] latest b u = absurd u
  latest_loop-takes (log ∷ logs) latest b (inl u) =
      let (a, e, le) = latest_update-takes log latest b u in
      let (m, e', le') = latest_loop-keeps logs _ a e in (m, e', omega arith)
  latest_loop-takes (log ∷ logs) latest b (inr u) = latest_loop-takes logs _ b u

-- Where the node answers, a quote is fresh exactly if the scan from 1000 blocks before the current
-- one on shows an update of the index in some block that the second reading of the block number
-- exceeds by the maximal age at most; else it is stale.
pub is_quote_stale_lem :
    (castle castle' : Castle) (index_id max_blocks_age current now : ℕ)
    (logs : List (EventLog IndexEvent))
    → castle.get_block_number ≡ ok current
    → castle.index_quote_updated (current - 1000) ≡ ok logs
    → castle'.get_block_number ≡ ok now
    → (stale : Bool) × (is_quote_stale castle castle' index_id max_blocks_age ≡ ok stale)
      × ((stale ≡ false) ↔ ((b : ℕ) × IsUpdatedAt index_id b logs × (now ≤ b + max_blocks_age)))
unfolding is_quote_stale get_quote_last_updated is_older
is_quote_stale_lem castle castle' index_id max_blocks_age current now logs number scan number' =
    let latest = latest_loop index_id logs none in
    (
      is_older max_blocks_age now latest,
      rw (number, is_quote_stale, scan, number'),
      (
        (λ fresh. elim (Option-cases latest) [
          | inl never ↦ cc (rw (never, is_older) at fresh)
          | inr (b, last) ↦ elim (latest_loop-found index_id logs none b last) [
            | inr impossible ↦ cc impossible
            | inl u ↦ (b, u, ground (arith, last, fresh))
          ]
        ]),
        (λ update.
            let (m, last, le) = latest_loop-takes index_id logs none update.0 update.1 in
            let bound = update.2 in rw (last, is_older) (ground arith)),
      ),
    )
