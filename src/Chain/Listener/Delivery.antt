-- ===== src/Chain/Listener/Delivery.antt =====
-- Which events the polls emit.

use vendor.Base.{
  subst, ◌<◌, ℕ, zero, suc, ◌+◌, ◌-◌, ◌≤◌, ◌≡◌, refl, sym, ap, ◌∙◌, ◌⊎◌, inl, inr, List, [], ◌∷◌,
  ◌++◌, Option, none, some, true, false, leb, Result, ok, err, is_err, is_empty_list, All,
  append-nil, append_assoc, arith, Result-cases, Bool-cases,
}
use vendor.Chain.Events.{VaultEvent}
use vendor.Chain.Parse.{Log, EventCodec, EventParseError}
use vendor.Chain.Listener.{
  Listener, RpcLog, Node, parse_rpc_log, process_logs, poll_events, poll_all, read_logs, emit_event,
  emit_parsed, one_if_parsed,
}

-- The logs of `n` blocks from block `from` on.
abbrev pub blocks : (ℕ → List RpcLog) → ℕ → ℕ → List RpcLog
blocks chain from zero = []
blocks chain from (suc n) = chain from ++ blocks chain (from + 1) n

-- The node is one of the chain whose logs of the vaults are `chain`: a request for logs fails, or is
-- answered with those of the blocks asked for.
abbrev pub Serves : (ℕ → List RpcLog) → List ℕ → Node → Type 0
Serves chain vaults node =
    (from to : ℕ)
    → (node.get_logs vaults from to ≡ ok (blocks chain from (to + 1 - from)))
      ⊎ (is_err (node.get_logs vaults from to) ≡ true)

blocks-append :
    (chain : ℕ → List RpcLog) (from m n : ℕ)
    → blocks chain from m ++ blocks chain (from + m) n ≡ blocks chain from (m + n)
blocks-append chain from zero n =
    let e : zero + n ≡ n = omega arith in let f : from + zero ≡ from = omega arith in rw (e, f)
blocks-append chain from (suc m) n =
    let e : suc m + n ≡ suc (m + n) = omega arith in
    let f : from + suc m ≡ from + 1 + m = omega arith in
    rw (e, f)
      (append_assoc (chain from) (blocks chain (from + 1) m) (blocks chain (from + 1 + m) n)
        ∙ ap (λ l. chain from ++ l) (blocks-append chain (from + 1) m n))

module _ (codec : EventCodec) (new_log : List ℕ → List ℕ → Option Log) (clock : RpcLog → ℕ) where
  -- The event of a log, if it is one.
  abbrev pub event_list : Result VaultEvent EventParseError → List VaultEvent
  event_list (ok event) = event ∷ []
  event_list (err e) = []

  abbrev pub log_events : RpcLog → Option Log → List VaultEvent
  log_events log none = []
  log_events log (some built) = event_list (parse_rpc_log codec new_log clock log built)

  abbrev pub events_of : List RpcLog → List VaultEvent
  events_of [] = []
  events_of (log ∷ logs) = log_events log (new_log log.topics log.bytes) ++ events_of logs

  -- All of the logs can be built.
  abbrev pub AreBuilt : List RpcLog → Type 0
  AreBuilt logs = All (λ log. (built : Log) × (new_log log.topics log.bytes ≡ some built)) logs

  AreBuilt-append : (xs ys : List RpcLog) → AreBuilt xs → AreBuilt ys → AreBuilt (xs ++ ys)
  AreBuilt-append [] ys p q = q
  AreBuilt-append (x ∷ xs) ys p q = (p.0, AreBuilt-append xs ys p.1 q)

  AreBuilt-blocks :
      (chain : ℕ → List RpcLog)
      → ((block : ℕ) → AreBuilt (chain block))
      → (from n : ℕ) → AreBuilt (blocks chain from n)
  AreBuilt-blocks chain h from zero = tt
  AreBuilt-blocks chain h from (suc n) =
      AreBuilt-append (chain from) (blocks chain (from + 1) n) (h from)
        (AreBuilt-blocks chain h (from + 1) n)

  events_of-append : (xs ys : List RpcLog) → events_of xs ++ events_of ys ≡ events_of (xs ++ ys)
  events_of-append [] ys = refl
  events_of-append (x ∷ xs) ys =
      let here : List VaultEvent = log_events x (new_log x.topics x.bytes) in
      append_assoc here (events_of xs) (events_of ys) ∙ ap (λ l. here ++ l) (events_of-append xs ys)

  -- One log: what the loop's body leaves.
  emit_parsed_lem :
      (r : Result VaultEvent EventParseError) (l : Listener)
      → emit_parsed r l ≡ record l { emitted = l.emitted ++ event_list r }
  unfolding emit_event
  emit_parsed_lem (ok event) l = refl
  emit_parsed_lem (err e) l = ap (λ es. record l { emitted = es }) (sym (append-nil l.emitted))

  process_logs_lem :
      (logs : List RpcLog) (count : ℕ) (l : Listener)
      → AreBuilt logs
      → (n : ℕ) × (process_logs codec new_log clock logs count l
          ≡ (ok n, record l { emitted = l.emitted ++ events_of logs }))
  unfolding process_logs
  process_logs_lem [] count l built =
      (count, ap (λ es. (ok count, record l { emitted = es })) (sym (append-nil l.emitted)))
  process_logs_lem (log ∷ logs) count l ((b, e), built) =
      let parsed = parse_rpc_log codec new_log clock log b in
      let rest =
        process_logs_lem logs (count + one_if_parsed parsed) (emit_parsed parsed l) built in
      (
        rest.0,
        rw (e, process_logs)
            (rest.1
              ∙ ap (λ k. (ok rest.0, record k { emitted = k.emitted ++ events_of logs }))
                  (emit_parsed_lem parsed l)
              ∙ ap (λ es. (ok rest.0, record l { emitted = es }))
                  (append_assoc l.emitted (event_list parsed) (events_of logs))),
      )

  -- `n` more blocks are read: all of their events and no others are emitted, in order.
  abbrev pub advance : (ℕ → List RpcLog) → ℕ → Listener → Listener
  advance chain n l = record l {
    last_processed_block = l.last_processed_block + n;
    emitted = l.emitted ++ events_of (blocks chain (l.last_processed_block + 1) n);
  }

  abbrev pub Delivers : (ℕ → List RpcLog) → Listener → Listener → Type 0
  Delivers chain l l' = (n : ℕ) × (l' ≡ advance chain n l)

  advanced :
      (l : Listener) (a b : ℕ) (es fs : List VaultEvent)
      → a ≡ b
      → es ≡ fs
      → ◌≡◌ {A = Listener}
          (record l { last_processed_block = a; emitted = es })
          (record l { last_processed_block = b; emitted = fs })
  advanced l a b es fs p q = λ i. record l { last_processed_block = p i; emitted = q i }

  advance-advance :
      (chain : ℕ → List RpcLog) (m n : ℕ) (l : Listener)
      → advance chain n (advance chain m l) ≡ advance chain (m + n) l
  advance-advance chain m n l =
      let from = l.last_processed_block + 1 in
      let e : l.last_processed_block + m + 1 ≡ from + m = omega arith in
      advanced l _ _ _ _ (omega arith) (
        append_assoc l.emitted (events_of (blocks chain from m))
          (events_of (blocks chain (l.last_processed_block + m + 1) n))
        ∙ ap (λ es. l.emitted ++ es)
            (ap (λ k. events_of (blocks chain from m) ++ events_of (blocks chain k n)) e
              ∙ events_of-append (blocks chain from m) (blocks chain (from + m) n)
              ∙ ap events_of (blocks-append chain from m n)))

  Delivers-none : (chain : ℕ → List RpcLog) (l : Listener) → Delivers chain l l
  Delivers-none chain l = (0, advanced l _ _ _ _ (omega arith) (sym (append-nil l.emitted)))

  Delivers-trans :
      (chain : ℕ → List RpcLog) (a b c : Listener)
      → Delivers chain a b
      → Delivers chain b c
      → Delivers chain a c
  Delivers-trans chain a b c (m, p) (n, q) =
      (m + n, q ∙ ap (λ l. advance chain n l) p ∙ advance-advance chain m n a)

  module _ (chain : ℕ → List RpcLog) (built : (block : ℕ) → AreBuilt (chain block)) where
    read_logs-Delivers :
        (node : Node) (to_block : ℕ) (l : Listener)
        → Serves chain l.vault_addresses node
        → l.last_processed_block ≤ to_block
        → Delivers chain l
            (read_logs codec new_log clock node (l.last_processed_block + 1) to_block l).1
    unfolding read_logs
    read_logs-Delivers node to_block l s h = elim (s (l.last_processed_block + 1) to_block) [
      | inl answer ↦
          let count = to_block - l.last_processed_block in
          let f : to_block + 1 - (l.last_processed_block + 1) ≡ count = omega arith in
          let got =
            process_logs_lem (blocks chain (l.last_processed_block + 1) count) 0 l
              (AreBuilt-blocks chain built (l.last_processed_block + 1) count) in
          (count, rw (answer, f, read_logs, got.1) (advanced l _ _ _ _ (omega arith) refl))
      | inr failed ↦
          elim (Result-cases
            (node.get_logs l.vault_addresses (l.last_processed_block + 1) to_block)) [
              | inl (logs, e) ↦ cc
              | inr (error, e) ↦ rw (e, read_logs) (Delivers-none chain l)
            ]
    ]

    poll_events-Delivers :
        (node : Node) (l : Listener)
        → Serves chain l.vault_addresses node
        → Delivers chain l (poll_events codec new_log clock node l).1
    unfolding poll_events
    poll_events-Delivers node l s = elim (Result-cases node.get_block_number) [
      | inr (error, e) ↦ rw (e, poll_events) (Delivers-none chain l)
      | inl (to_block, e) ↦ elim (Bool-cases (leb to_block l.last_processed_block)) [
        | inl old ↦ rw (e, old, poll_events) (Delivers-none chain l)
        | inr new ↦ elim (Bool-cases (is_empty_list l.vault_addresses)) [
          | inl none_watched ↦ rw (e, new, none_watched, poll_events) (Delivers-none chain l)
          | inr watched ↦
              rw (e, new, watched, poll_events)
                (read_logs-Delivers node to_block l s (ground arith))
        ]
      ]
    ]

    -- The nodes of a chain whose blocks have these logs fail or answer as they like, and each log can
    -- be built. Any polls then emit, after what was emitted before, the events of all blocks
    -- from the last processed one up to a later or the same one, in order; that block is the last
    -- processed one then. So no event of these blocks is lost, repeated or overtaken.
    pub poll_all-Delivers :
        (nodes : List Node) (l : Listener)
        → All (Serves chain l.vault_addresses) nodes
        → Delivers chain l (poll_all codec new_log clock nodes l)
    unfolding poll_all
    poll_all-Delivers [] l s = Delivers-none chain l
    poll_all-Delivers (node ∷ nodes) l (s, ss) =
        let l' = (poll_events codec new_log clock node l).1 in
        let first = poll_events-Delivers node l s in
        let same : l'.vault_addresses ≡ l.vault_addresses = ap (λ k. k.vault_addresses) first.1 in
        Delivers-trans chain l l' _ first
          (poll_all-Delivers nodes l' (subst (λ v. All (Serves chain v) nodes) (sym same) ss))

    -- A poll that is answered with a newer block and with the logs, while vaults are watched, succeeds
    -- and emits the events of all blocks after the last processed one up to the newest, which is the
    -- last processed one then.
    pub poll_events-catches_up :
        (node : Node) (l : Listener) (to_block : ℕ)
        → node.get_block_number ≡ ok to_block
        → l.last_processed_block < to_block
        → is_empty_list l.vault_addresses ≡ false
        → node.get_logs l.vault_addresses (l.last_processed_block + 1) to_block
          ≡ ok (blocks chain (l.last_processed_block + 1) (to_block - l.last_processed_block))
        → (is_err (poll_events codec new_log clock node l).0 ≡ false)
          × ((poll_events codec new_log clock node l).1
              ≡ advance chain (to_block - l.last_processed_block) l)
          × ((poll_events codec new_log clock node l).1.last_processed_block ≡ to_block)
    unfolding poll_events read_logs
    poll_events-catches_up node l to_block e newer watched answer =
        let count = to_block - l.last_processed_block in
        let new : leb to_block l.last_processed_block ≡ false = ground arith in
        let got =
          process_logs_lem (blocks chain (l.last_processed_block + 1) count) 0 l
            (AreBuilt-blocks chain built (l.last_processed_block + 1) count) in
        rw (e, new, watched, poll_events, answer, read_logs, got.1)
          (refl, advanced l _ _ _ _ (omega arith) refl, refl)
