-- ===== src/Chain/Websocket/Messages.antt =====
-- A log that comes as a message is handled like one that is polled.
use Prim.Native.String.{String}
use vendor.Base.{
  ℕ, ◌≡◌, refl, ap, List, [], ◌∷◌, Option, some, map, unwrap_or, is_ok, arith, ◌+◌, ◌<◌, ◌∙◌, sym,
  false, leb, is_empty_list, Result, ok, err, Option-cases, Result-cases, inl, inr,
}
use vendor.Chain.Parse.{EventCodec, Log}
use vendor.Chain.Listener.{
  ChainError, Listener, RpcLog, Node, process_logs, parse_rpc_log, note_block, read_logs,
  poll_events, emit_event,
}
use vendor.Chain.Websocket.{
  JsonLog, Readers, read_topics, build_and_emit, process_log_result, zero_hash,
}

-- The JSON shows the log: its fields read as those of the log, or are both missing. The zero hash
-- and the block zero stand for what is missing.
pub record Shows (r : Readers) (j : JsonLog) (log : RpcLog) : Type 0 where
  pub address_text : String
  pub address_there : j.address ≡ some address_text
  pub address_reads : r.parse_address address_text ≡ some log.address
  pub hash_reads :
      r.parse_hash (unwrap_or j.transaction_hash zero_hash)
      ≡ some (unwrap_or log.transaction_hash 0)
  pub block_reads :
      r.parse_block (unwrap_or j.block_number "0x0") ≡ some (unwrap_or log.block_number 0)
  pub topic_texts : List String
  pub topics_there : j.topics ≡ some (map some topic_texts)
  pub topics_read : map r.parse_hash topic_texts ≡ map some log.topics
  pub bytes_read : r.decode_bytes (unwrap_or j.bytes "0x") ≡ some log.bytes

read_topics_lem :
    (parse : String → Option ℕ) (texts : List String) (topics : List ℕ)
    → map parse texts ≡ map some topics
    → read_topics parse (map some texts) ≡ topics
unfolding read_topics
read_topics_lem parse [] [] h = refl
read_topics_lem parse [] (t ∷ ts) h = cc
read_topics_lem parse (s ∷ ss) [] h = cc
read_topics_lem parse (s ∷ ss) (t ∷ ts) h =
    let first : parse s ≡ some t = cc in
    let rest : map parse ss ≡ map some ts = cc in
    rw first (ap (◌∷◌ t) (read_topics_lem parse ss ts rest))

-- The same event is emitted or none, and the one fails exactly if the other does.
process_log_result-eq-process_logs :
    (codec : EventCodec) (r : Readers) (now : ℕ) (j : JsonLog) (log : RpcLog) (l : Listener)
    → Shows r j log
    → ((process_log_result codec r now j l).1
        ≡ (process_logs codec r.new_log (λ _. now) (log ∷ []) 0 l).1)
      × (is_ok (process_log_result codec r now j l).0
          ≡ is_ok (process_logs codec r.new_log (λ _. now) (log ∷ []) 0 l).0)
unfolding process_log_result build_and_emit process_logs parse_rpc_log
process_log_result-eq-process_logs codec r now j log l s =
    let topics = read_topics_lem r.parse_hash s.topic_texts log.topics s.topics_read in
    elim (Option-cases (r.new_log log.topics log.bytes)) [
      | inl e ↦ ground arith
      | inr (b, e) ↦ ground arith
    ]

-- The note of the block aside, what follows the loop of a poll changes nothing.
note_block-aside :
    (codec : EventCodec) (new_log : List ℕ → List ℕ → Option Log) (clock : RpcLog → ℕ)
    (to_block : ℕ) (out : Result ℕ ChainError × Listener)
    → (is_ok (note_block codec new_log clock to_block out).0 ≡ is_ok out.0)
      × ((b : ℕ)
          → ◌≡◌ {A = Listener}
              (record (note_block codec new_log clock to_block out).1 { last_processed_block = b })
              (record out.1 { last_processed_block = b }))
note_block-aside codec new_log clock to_block (ok n, l) = (refl, λ b. refl)
note_block-aside codec new_log clock to_block (err e, l) = (refl, λ b. refl)

-- The loop over the logs does not note a block.
process_logs-block :
    (codec : EventCodec) (new_log : List ℕ → List ℕ → Option Log) (clock : RpcLog → ℕ)
    (logs : List RpcLog) (n : ℕ) (l : Listener)
    → (process_logs codec new_log clock logs n l).1.last_processed_block ≡ l.last_processed_block
unfolding process_logs emit_event
process_logs-block codec new_log clock [] n l = refl
process_logs-block codec new_log clock (log ∷ logs) n l =
    elim (Option-cases (new_log log.topics log.bytes)) [
      | inl e ↦ rw (e, process_logs) refl
      | inr (built, e) ↦ elim (Result-cases (parse_rpc_log codec new_log clock log built)) [
        | inl (event, parsed) ↦
            rw (e, process_logs, parsed)
              (process_logs-block codec new_log clock logs (n + 1) (emit_event event l))
        | inr (x, parsed) ↦
            rw (e, process_logs, parsed) (process_logs-block codec new_log clock logs (n + 0) l)
      ]
    ]

-- A JSON log that shows a log of the node leaves the listener as a poll in which the node has just
-- this log, at the same time, but for the last processed block, which only the poll moves on: the
-- same event is emitted or none, and the one fails exactly if the other does. The poll is one that
-- asks for logs: there is a new block, and some vault is watched.
pub process_log_result-eq-poll_events :
    (codec : EventCodec) (r : Readers) (now : ℕ) (j : JsonLog) (log : RpcLog) (l : Listener)
    (node : Node) (to_block : ℕ)
    → Shows r j log
    → node.get_block_number ≡ ok to_block
    → l.last_processed_block < to_block
    → is_empty_list l.vault_addresses ≡ false
    → node.get_logs l.vault_addresses (l.last_processed_block + 1) to_block ≡ ok (log ∷ [])
    → let (result, l') = process_log_result codec r now j l in
      let (polled, polled_l) = poll_events codec r.new_log (λ _. now) node l in
      (l' ≡ record polled_l { last_processed_block = l.last_processed_block })
      × (is_ok result ≡ is_ok polled)
unfolding poll_events read_logs
process_log_result-eq-poll_events codec r now j log l node to_block s newest later watched logs =
    let looped = process_logs codec r.new_log (λ _. now) (log ∷ []) 0 l in
    let old : leb to_block l.last_processed_block ≡ false = ground arith in
    let (same_listener, same_result) = process_log_result-eq-process_logs codec r now j log l s in
    let (noted_result, noted) = note_block-aside codec r.new_log (λ _. now) to_block looped in
    let polls : poll_events codec r.new_log (λ _. now) node l
        ≡ note_block codec r.new_log (λ _. now) to_block looped =
      rw (newest, old, watched, logs) refl in
    let kept = process_logs-block codec r.new_log (λ _. now) (log ∷ []) 0 l in
    let back : looped.1 ≡ record looped.1 { last_processed_block = l.last_processed_block } =
      ap (λ b. record looped.1 { last_processed_block = b }) kept in
    rw polls
      (same_listener ∙ back ∙ sym (noted l.last_processed_block), same_result ∙ sym noted_result)
