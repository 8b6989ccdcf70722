-- ===== src/Chain/Tests.antt =====
-- A chain with one log in its third block, and a client of its Steward.

use vendor.Base.{
  if-both, ℕ, ◌-◌, ◌≡◌, ◌↔◌, inl, refl, List, [], ◌∷◌, Option, none, some, true, false,
  if◌then◌else◌, nat_beq, length, ok, err, arith, All, ◌+◌,
}
use vendor.Base.Map.{nat_eq}
use vendor.Chain.Events.{
  VaultEvent, buy, acquisition_claimed, index_id, trader, controller, vault_address, tx_hash,
  is_buy, is_sell, is_acquisition, is_disposal, is_acquisition_claim, is_disposal_claim, is_claim,
  is_order, is_lifecycle, claim_remainder,
}
use vendor.Chain.Parse.{Log, EventCodec, parse_log, all_signatures, orders_only, claims_only}
use vendor.Chain.Parse.Kinds.{HaveDistinctHashes, EmittedAs, parse_log-EmittedAs}
use vendor.Chain.Listener.{
  Listener, RpcLog, Node, new_listener, poll_all, parse_rpc_log, emit_event, add_vault, add_vaults,
  vault_count, backtrack_events,
}
use vendor.Chain.Listener.Delivery.{blocks, Delivers, poll_all-Delivers}

-- Decoders that read one number of each event from the first bytes.
abbrev first : List ℕ → ℕ
first [] = 0
first (n ∷ ns) = n

abbrev codec : EventCodec
codec = record {
  buy_order_hash = 1;
  sell_order_hash = 2;
  acquisition_hash = 3;
  disposal_hash = 4;
  acquisition_claim_hash = 5;
  disposal_claim_hash = 6;
  decode_buy_order = λ log. ok (record {
    keeper = 1;
    trader = 2;
    index_id = first log.bytes;
    vendor_id = 3;
    collateral_amount = 4;
  });
  decode_sell_order = λ log. err "no sells";
  decode_acquisition = λ log. err "no acquisitions";
  decode_disposal = λ log. err "no disposals";
  decode_acquisition_claim = λ log. err "no claims";
  decode_disposal_claim = λ log. err "no claims";
}

codec-HaveDistinctHashes : HaveDistinctHashes codec
codec-HaveDistinctHashes = record {
  buy_order_ne_sell_order = omega arith;
  buy_order_ne_acquisition = omega arith;
  buy_order_ne_disposal = omega arith;
  buy_order_ne_acquisition_claim = omega arith;
  buy_order_ne_disposal_claim = omega arith;
  sell_order_ne_acquisition = omega arith;
  sell_order_ne_disposal = omega arith;
  sell_order_ne_acquisition_claim = omega arith;
  sell_order_ne_disposal_claim = omega arith;
  acquisition_ne_disposal = omega arith;
  acquisition_ne_acquisition_claim = omega arith;
  acquisition_ne_disposal_claim = omega arith;
  disposal_ne_acquisition_claim = omega arith;
  disposal_ne_disposal_claim = omega arith;
  acquisition_claim_ne_disposal_claim = omega arith;
}

abbrev bought : VaultEvent
bought = buy (record {
  keeper = 1;
  trader = 2;
  index_id = 10;
  vendor_id = 3;
  collateral_amount = 4;
  vault_address = 7;
  tx_hash = 8;
  block_number = 3;
  received_at = 0;
})

abbrev buy_log : Log
buy_log = record { topics = 1 ∷ []; bytes = 10 ∷ [] }

parse_log-EmittedAs_example :
    (parse_log 7 8 3 0 codec buy_log ≡ ok bought) ↔ EmittedAs codec buy_log 7 8 3 0 bought
parse_log-EmittedAs_example =
    parse_log-EmittedAs codec buy_log 7 8 3 0 codec-HaveDistinctHashes bought

abbrev build : List ℕ → List ℕ → Option Log
build topics bytes = some (record { topics = topics; bytes = bytes })

abbrev clock : RpcLog → ℕ
clock log = 0

abbrev rpc_log : RpcLog
rpc_log = record {
  address = 7;
  topics = 1 ∷ [];
  bytes = 10 ∷ [];
  transaction_hash = some 8;
  block_number = some 3;
}

abbrev chain : ℕ → List RpcLog
chain block = if nat_beq block 3 then rpc_log ∷ [] else []

chain-built :
    (block : ℕ)
    → All (λ (log : RpcLog). (b : Log) × (build log.topics log.bytes ≡ some b)) (chain block)
chain-built block =
    if-both
      (λ (logs : List RpcLog).
        All (λ (log : RpcLog). (b : Log) × (build log.topics log.bytes ≡ some b)) logs)
      (nat_beq block 3) (rpc_log ∷ []) [] (λ e. ((_, refl), tt)) (λ e. tt)

abbrev node : Node
node = record {
  get_block_number = ok 4;
  get_logs = λ vaults from to. ok (blocks chain from (to + 1 - from));
}

abbrev watching : Listener
watching = record (new_listener (7 ∷ [])) { last_processed_block = 1 }

poll_all-Delivers_example :
    Delivers codec build clock chain watching
      (poll_all codec build clock (node ∷ node ∷ []) watching)
poll_all-Delivers_example =
    poll_all-Delivers codec build clock chain chain-built (node ∷ node ∷ []) watching
      ((λ from to. inl refl), ((λ from to. inl refl), tt))

abbrev claimed : VaultEvent
claimed = acquisition_claimed (record {
  controller = 9;
  index_id = 10;
  vendor_id = 3;
  remain = 250;
  spent = 0;
  itp_minted = 0;
  vault_address = 7;
  tx_hash = 8;
  block_number = 3;
  received_at = 0;
})

buy_fields :
    (index_id bought ≡ 10)
    × (trader bought ≡ some 2)
    × (controller bought ≡ none)
    × (vault_address bought ≡ 7)
    × (tx_hash bought ≡ 8)
    × (is_order bought ≡ true)
    × (is_lifecycle bought ≡ false)
    × (claim_remainder bought ≡ none)
unfolding index_id trader controller vault_address tx_hash is_order is_lifecycle claim_remainder
buy_fields = (refl, refl, refl, refl, refl, refl, refl, refl)

claim_kinds :
    (is_buy claimed ≡ false)
    × (is_sell claimed ≡ false)
    × (is_acquisition claimed ≡ false)
    × (is_disposal claimed ≡ false)
    × (is_acquisition_claim claimed ≡ true)
    × (is_disposal_claim claimed ≡ false)
    × (is_claim claimed ≡ true)
unfolding is_buy is_sell is_acquisition is_disposal is_acquisition_claim is_disposal_claim is_claim
claim_kinds = (refl, refl, refl, refl, refl, refl, refl)

signature_lists :
    (length (all_signatures codec) ≡ 6)
    × (orders_only codec ≡ 1 ∷ 2 ∷ [])
    × (claims_only codec ≡ 5 ∷ 6 ∷ [])
unfolding all_signatures orders_only claims_only
signature_lists = (refl, refl, refl)

-- A vault is watched once.
watch_list :
    (add_vault 7 watching ≡ (false, watching))
    × ((add_vaults (7 ∷ 8 ∷ 8 ∷ []) watching).0 ≡ 1)
    × (vault_count (add_vaults (7 ∷ 8 ∷ 8 ∷ []) watching).1 ≡ 2)
unfolding add_vault add_vaults vault_count new_listener
watch_list = (refl, refl, refl)

-- The backtrack reads the block of the log; polling starts after the newest block.
backtracked :
    ((backtrack_events codec build clock node 0 watching).0 ≡ ok 1)
    × ((backtrack_events codec build clock node 0 watching).1.emitted ≡ bought ∷ [])
unfolding backtrack_events new_listener parse_rpc_log parse_log emit_event
backtracked = (refl, refl)
