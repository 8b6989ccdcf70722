-- ===== src/Chain/Websocket/Tests.antt =====
-- Connections that fail or are closed, and a message that shows a log.
use Prim.Native.String.{String}
use vendor.Base.{ℕ, ◌≡◌, refl, [], ◌∷◌, Option, none, some, if◌then◌else◌, ok, err, is_ok, arith}
use vendor.Base.Map.{string_eq, ◌==◌}
use vendor.Chain.Parse.{EventCodec}
use vendor.Chain.Listener.{rpc_error, Listener, RpcLog, Node, new_listener, poll_events}
use vendor.Chain.Websocket.{JsonLog, Readers, Connection, websocket_loop, process_log_result}
use vendor.Chain.Websocket.Backoff.{GivesUp, websocket_loop-GivesUp, websocket_loop-never_pauses}
use vendor.Chain.Websocket.Messages.{Shows, process_log_result-eq-poll_events}

abbrev start : Listener
start = new_listener (7 ∷ [])

abbrev refused : Connection
refused l = (err (rpc_error "refused"), l)

abbrev closed : Connection
closed l = (ok tt, l)

websocket_loop-GivesUp_example :
    GivesUp 3 5000 3 1000 []
      (websocket_loop 3 5000 (refused ∷ refused ∷ refused ∷ refused ∷ []) 1000 start [])
unfolding new_listener
websocket_loop-GivesUp_example =
    websocket_loop-GivesUp 3 5000 3 (refused ∷ refused ∷ refused ∷ refused ∷ []) 1000 start [] refl
      (omega arith)
      (
        ((λ l. refl), (λ l. refl)),
        (
          ((λ l. refl), (λ l. refl)),
          (((λ l. refl), (λ l. refl)), (((λ l. refl), (λ l. refl)), tt)),
        ),
      )

websocket_loop-never_pauses_example :
    ((websocket_loop 3 5000 (closed ∷ closed ∷ []) 1000 start []).result ≡ ok tt)
    × ((websocket_loop 3 5000 (closed ∷ closed ∷ []) 1000 start []).delays ≡ [])
unfolding new_listener
websocket_loop-never_pauses_example =
    websocket_loop-never_pauses 3 5000 (closed ∷ closed ∷ []) 1000 start [] (omega arith)
      ((λ l. refl), ((λ l. refl), tt))

-- Readers that know a few texts.
abbrev read_number : String → Option ℕ
read_number text =
    if text == "0x7"
    then some 7
    else if text == "0x8"
    then some 8
    else if text == "0x1"
    then some 1
    else none

abbrev readers : Readers
readers = record {
  parse_address = read_number;
  parse_hash = read_number;
  parse_block = read_number;
  decode_bytes = λ text. some (10 ∷ []);
  new_log = λ topics bytes. some (record { topics = topics; bytes = bytes });
}

abbrev codec : EventCodec
codec = record {
  buy_order_hash = 1;
  sell_order_hash = 2;
  acquisition_hash = 3;
  disposal_hash = 4;
  acquisition_claim_hash = 5;
  disposal_claim_hash = 6;
  decode_buy_order = λ log.
      ok (record { keeper = 1; trader = 2; index_id = 9; vendor_id = 3; collateral_amount = 4 });
  decode_sell_order = λ log. err "no sells";
  decode_acquisition = λ log. err "no acquisitions";
  decode_disposal = λ log. err "no disposals";
  decode_acquisition_claim = λ log. err "no claims";
  decode_disposal_claim = λ log. err "no claims";
}

abbrev message : JsonLog
message = record {
  address = some "0x7";
  transaction_hash = some "0x8";
  block_number = some "0x8";
  topics = some (some "0x1" ∷ []);
  bytes = some "0x0a";
}

abbrev rpc_log : RpcLog
rpc_log = record {
  address = 7;
  topics = 1 ∷ [];
  bytes = 10 ∷ [];
  transaction_hash = some 8;
  block_number = some 8;
}

message-Shows : Shows readers message rpc_log
message-Shows = record {
  address_text = "0x7";
  address_there = refl;
  address_reads = refl;
  hash_reads = refl;
  block_reads = refl;
  topic_texts = "0x1" ∷ [];
  topics_there = refl;
  topics_read = refl;
  bytes_read = refl;
}

-- Its newest block has just this log.
abbrev node : Node
node = record {
  get_block_number = ok 8;
  get_logs = λ vaults from_block to_block. ok (rpc_log ∷ []);
}

process_log_result-eq-poll_events_example :
    let (result, l') = process_log_result codec readers 0 message start in
    let (polled, polled_l) = poll_events codec readers.new_log (λ _. 0) node start in
    (l' ≡ record polled_l { last_processed_block = start.last_processed_block })
    × (is_ok result ≡ is_ok polled)
unfolding new_listener
process_log_result-eq-poll_events_example =
    process_log_result-eq-poll_events codec readers 0 message rpc_log start node 8 message-Shows
      refl (omega arith) refl refl
