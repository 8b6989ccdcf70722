-- ===== src/Chain/Websocket.antt =====
-- The WebSocket side of bin/keeper/src/chain/event_listener.rs: the loop of reconnections, and the
-- messages of a connection.
pub mod Backoff
pub mod Messages
mod Tests
use Prim.Native.String.{String}
use vendor.Base.{
  ℕ, zero, suc, ◌+◌, ◌*◌, min, List, [], ◌∷◌, ◌++◌, Option, none, some, Bool, true, false, ltb, leb,
  if◌then◌else◌, unwrap_or, and_then, map_option, Result, ok, err,
}
use vendor.Chain.Events.{VaultEvent}
use vendor.Chain.Parse.{Log, EventCodec, EventParseError, parse_log}
use vendor.Chain.Listener.{
  ChainError, connection_lost, event_parse_error, invalid_vault_address, ConnectionState,
  disconnected, connecting, reconnecting, Listener, emit_parsed,
}

-- A JSON log of a notification: the fields that are there and are strings, and an array of
-- topics, of which some may be no strings.
pub record JsonLog : Type 0 where
  pub address : Option String
  pub transaction_hash : Option String
  pub block_number : Option String
  pub topics : Option (List (Option String))
  pub bytes : Option String

-- The readers of alloy, hex and the standard library.
pub record Readers : Type 0 where
  pub parse_address : String → Option ℕ
  pub parse_hash : String → Option ℕ
  pub parse_block : String → Option ℕ
  pub decode_bytes : String → Option (List ℕ)
  pub new_log : List ℕ → List ℕ → Option Log

-- Two `filter_map`s: the topics that are strings and can be read.
pub read_topics : (String → Option ℕ) → List (Option String) → List ℕ
read_topics parse [] = []
read_topics parse (none ∷ ts) = read_topics parse ts
read_topics parse (some t ∷ ts) = elim (parse t) [
  | none ↦ read_topics parse ts
  | some h ↦ h ∷ read_topics parse ts
]

abbrev pub zero_hash : String
zero_hash = "0x0000000000000000000000000000000000000000000000000000000000000000"

module _ (codec : EventCodec) (r : Readers) where
  -- From the point where the address and the hash are read.
  pub build_and_emit :
      (vault tx now : ℕ) → JsonLog → Listener → Result (Unit {0}) ChainError × Listener
  unfolding read_topics
  build_and_emit vault tx now j l =
      let block_number =
        unwrap_or (and_then (some (unwrap_or j.block_number "0x0")) r.parse_block) 0 in
      let topics = unwrap_or (map_option (read_topics r.parse_hash) j.topics) [] in
      let bytes = unwrap_or (r.decode_bytes (unwrap_or j.bytes "0x")) [] in
      elim (r.new_log topics bytes) [
        | none ↦ (err (event_parse_error "Failed to create log"), l)
        | some log ↦ (ok tt, emit_parsed (parse_log vault tx block_number now codec log) l)
      ]

  pub process_log_result : ℕ → JsonLog → Listener → Result (Unit {0}) ChainError × Listener
  unfolding build_and_emit
  process_log_result now j l = elim j.address [
    | none ↦ (err (event_parse_error "Missing address"), l)
    | some address ↦ elim (r.parse_address address) [
      | none ↦ (err (invalid_vault_address address), l)
      | some vault ↦ elim (r.parse_hash (unwrap_or j.transaction_hash zero_hash)) [
        | none ↦ (err (event_parse_error "Invalid tx hash"), l)
        | some tx ↦ build_and_emit vault tx now j l
      ]
    ]
  ]

-- What a call of `connect_and_subscribe` gives, with the listener that it leaves: it fails only
-- where the connection or the subscription does; a connection that is closed later is `ok`.
abbrev pub Connection : Type 0
Connection = Listener → Result (Unit {0}) ChainError × Listener

pub record Attempts : Type 0 where
  pub result : Result (Unit {0}) ChainError
  pub listener : Listener
  pub delays : List ℕ

-- The state that the loop shows while it connects.
abbrev pub connecting_state : ℕ → ConnectionState
connecting_state failures = if ltb 0 failures then reconnecting failures else connecting

-- The loop, over the connections that are made until the listener is cancelled; `delays` are the
-- pauses so far, in milliseconds.
pub websocket_loop : (threshold max_delay : ℕ) → List Connection → ℕ → Listener → List ℕ → Attempts
websocket_loop threshold max_delay [] retry_delay l delays = record {
  result = ok tt;
  listener = l;
  delays = delays;
}
websocket_loop threshold max_delay (connect ∷ rest) retry_delay l delays =
    let failures = l.consecutive_ws_failures in
    let (result, l') = connect (record l { state = connecting_state failures }) in
    let go_on = websocket_loop threshold max_delay rest in
    if leb threshold failures
    then record { result = err (connection_lost failures); listener = l; delays = delays }
    else elim result [
      | ok _ ↦ go_on 1000 (record l' { consecutive_ws_failures = 0; state = disconnected }) delays
      | err e ↦
          go_on (min (retry_delay * 2) max_delay)
            (record l' {
              consecutive_ws_failures = l'.consecutive_ws_failures + 1;
              state = disconnected;
            })
            (delays ++ retry_delay ∷ [])
    ]
