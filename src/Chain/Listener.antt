-- ===== src/Chain/Listener.antt =====
-- `ChainEventListener` of bin/keeper/src/chain/event_listener.rs: the watch list, and reading the
-- logs of past blocks. The node is a parameter; each call sees its own, so it may change between
-- calls.
pub mod Delivery
use Prim.Native.String.{String}
use vendor.Base.{
  ℕ, suc, ◌+◌, List, [], ◌∷◌, ◌++◌, Option, none, some, Bool, true, false, ◌||◌, nat_beq, leb,
  if◌then◌else◌, length, unwrap_or, contains, Result, ok, err, is_empty_list,
}
use vendor.Chain.Events.{VaultEvent}
use vendor.Chain.Parse.{Log, EventCodec, EventParseError, parse_log}

-- `ChainError`
pub data ChainError : Type 0 where
  web_socket_error : String → ChainError
  rpc_error : String → ChainError
  connection_lost : ℕ → ChainError
  event_parse_error : String → ChainError
  subscription_error : String → ChainError
  steward_call_failed : String → ChainError
  vault_not_found : ℕ → ChainError
  invalid_vault_address : String → ChainError
  invalid_config : String → ChainError

pub data ConnectionState : Type 0 where
  disconnected : ConnectionState
  connecting : ConnectionState
  connected : ConnectionState
  reconnecting : ℕ → ConnectionState

-- `emitted` is what went into the channel, the oldest first.
pub record Listener : Type 0 where
  pub vault_addresses : List ℕ
  pub state : ConnectionState
  pub consecutive_ws_failures : ℕ
  pub last_processed_block : ℕ
  pub emitted : List VaultEvent

unfoldable pub new_listener : List ℕ → Listener
new_listener vault_addresses = record {
  vault_addresses = vault_addresses;
  state = disconnected;
  consecutive_ws_failures = 0;
  last_processed_block = 0;
  emitted = [];
}

unfoldable pub add_vault : ℕ → Listener → Bool × Listener
add_vault vault l =
    if contains vault l.vault_addresses
    then (false, l)
    else (true, record l { vault_addresses = l.vault_addresses ++ vault ∷ [] })

-- The loop of `add_vaults`: the watch list and the number of vaults added.
unfoldable pub add_loop : List ℕ → List ℕ → ℕ → List ℕ × ℕ
add_loop [] vaults added = (vaults, added)
add_loop (v ∷ vs) vaults added =
    let is_new = contains v vaults in
    add_loop vs (if is_new then vaults else vaults ++ v ∷ []) (if is_new then added else suc added)

unfoldable pub add_vaults : List ℕ → Listener → ℕ × Listener
unfolding add_loop
add_vaults new_vaults l =
    let (vaults, added) = add_loop new_vaults l.vault_addresses 0 in
    (added, record l { vault_addresses = vaults })

unfoldable pub vault_count : Listener → ℕ
vault_count l = length l.vault_addresses

unfoldable pub emit_event : VaultEvent → Listener → Listener
emit_event event l = record l { emitted = l.emitted ++ event ∷ [] }

-- A log as the node gives it.
pub record RpcLog : Type 0 where
  pub address : ℕ
  pub topics : List ℕ
  pub bytes : List ℕ
  pub transaction_hash : Option ℕ
  pub block_number : Option ℕ

-- The node: the number of its newest block, and the logs of the given contracts from one block
-- to another, both included, that have one of the six signatures.
pub record Node : Type 0 where
  pub get_block_number : Result ℕ String
  pub get_logs : List ℕ → ℕ → ℕ → Result (List RpcLog) String

-- An event that was parsed is emitted, another log is only reported.
abbrev pub emit_parsed : Result VaultEvent EventParseError → Listener → Listener
emit_parsed (ok event) l = emit_event event l
emit_parsed (err e) l = l

abbrev pub one_if_parsed : Result VaultEvent EventParseError → ℕ
one_if_parsed (ok event) = 1
one_if_parsed (err e) = 0

-- `new_log` is alloy's `Log::new`, which refuses some topics; `clock` is the time at which a log is
-- parsed.
module _ (codec : EventCodec) (new_log : List ℕ → List ℕ → Option Log) (clock : RpcLog → ℕ) where
  unfoldable pub parse_rpc_log : RpcLog → Log → Result VaultEvent EventParseError
  parse_rpc_log l log =
      parse_log l.address (unwrap_or l.transaction_hash 0) (unwrap_or l.block_number 0) (clock l)
        codec log

  -- The loop over the logs, with the count that `backtrack_events` keeps. It ends early with an
  -- error where a log cannot be built.
  unfoldable pub process_logs : List RpcLog → ℕ → Listener → Result ℕ ChainError × Listener
  unfolding parse_rpc_log emit_event
  process_logs [] event_count l = (ok event_count, l)
  process_logs (log ∷ logs) event_count l = elim (new_log log.topics log.bytes) [
    | none ↦ (err (event_parse_error "Failed to create log"), l)
    | some built ↦
        let parsed = parse_rpc_log log built in
        process_logs logs (event_count + one_if_parsed parsed) (emit_parsed parsed l)
  ]

  -- What follows the loop: the block is noted, if the loop came to its end.
  abbrev pub note_block : ℕ → Result ℕ ChainError × Listener → Result ℕ ChainError × Listener
  note_block to_block (ok n, l) = (ok n, record l { last_processed_block = to_block })
  note_block to_block (err e, l) = (err e, l)

  -- `get_logs`, then the loop.
  unfoldable pub read_logs : Node → ℕ → ℕ → Listener → Result ℕ ChainError × Listener
  unfolding process_logs
  read_logs node from_block to_block l =
      elim (node.get_logs l.vault_addresses from_block to_block) [
        | err e ↦ (err (rpc_error e), l)
        | ok logs ↦ note_block to_block (process_logs logs 0 l)
      ]

  unfoldable pub backtrack_events : Node → ℕ → Listener → Result ℕ ChainError × Listener
  unfolding read_logs
  backtrack_events node from_block l = elim node.get_block_number [
    | err e ↦ (err (rpc_error e), l)
    | ok current_block ↦
        if is_empty_list l.vault_addresses
        then (ok 0, l)
        else read_logs node from_block current_block l
  ]

  unfoldable pub poll_events : Node → Listener → Result ℕ ChainError × Listener
  unfolding read_logs
  poll_events node l = elim node.get_block_number [
    | err e ↦ (err (rpc_error e), l)
    | ok to_block ↦
        if leb to_block l.last_processed_block
        then (ok 0, l)
        else if is_empty_list l.vault_addresses
        then (ok 0, l)
        else read_logs node (l.last_processed_block + 1) to_block l
  ]

  -- The ticks of `run_polling_loop`, each with the node that it sees; errors are only reported.
  unfoldable pub poll_all : List Node → Listener → Listener
  unfolding poll_events
  poll_all [] l = l
  poll_all (node ∷ nodes) l = poll_all nodes (poll_events node l).1

  -- The loop starts at the newest block, whatever was processed before.
  unfoldable pub run_polling_loop : Node → List Node → Listener → Result Listener ChainError
  unfolding poll_all
  run_polling_loop node nodes l = elim node.get_block_number [
    | err e ↦ err (rpc_error e)
    | ok current_block ↦ ok (poll_all nodes (record l { last_processed_block = current_block }))
  ]
