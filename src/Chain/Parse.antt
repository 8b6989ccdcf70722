-- ===== src/Chain/Parse.antt =====
-- `parse_log` and the event signatures of bin/keeper/src/chain/event_types.rs. What the `sol!`
-- macro of alloy generates, a hash and a decoder for each event, is a record of functions.
pub mod Kinds
use Prim.Native.String.{String}
use vendor.Base.{
  ℕ, ◌≡◌, ◌≢◌, List, [], ◌∷◌, Option, none, some, Bool, nat_beq, if◌then◌else◌, Result, ok, err,
}
use vendor.Chain.Events.{
  BuyOrder, SellOrder, Acquisition, Disposal, AcquisitionClaim, DisposalClaim, BuyOrderEvent,
  SellOrderEvent, AcquisitionEvent, DisposalEvent, AcquisitionClaimEvent, DisposalClaimEvent,
  VaultEvent, buy, sell, acquired, disposed, acquisition_claimed, disposal_claimed,
}

-- `EventParseError`
pub data EventParseError : Type 0 where
  no_topics : EventParseError
  unknown_signature : ℕ → EventParseError
  decode_error : String → EventParseError

-- A log: its topics, and the data that the decoders read.
pub record Log : Type 0 where
  pub topics : List ℕ
  pub bytes : List ℕ

pub record EventCodec : Type 0 where
  pub buy_order_hash : ℕ
  pub sell_order_hash : ℕ
  pub acquisition_hash : ℕ
  pub disposal_hash : ℕ
  pub acquisition_claim_hash : ℕ
  pub disposal_claim_hash : ℕ
  pub decode_buy_order : Log → Result BuyOrder String
  pub decode_sell_order : Log → Result SellOrder String
  pub decode_acquisition : Log → Result Acquisition String
  pub decode_disposal : Log → Result Disposal String
  pub decode_acquisition_claim : Log → Result AcquisitionClaim String
  pub decode_disposal_claim : Log → Result DisposalClaim String

-- `EventSignatures::all`, `orders_only` and `claims_only`
module _ (c : EventCodec) where
  unfoldable pub all_signatures : List ℕ
  all_signatures =
      c.buy_order_hash ∷ c.sell_order_hash ∷ c.acquisition_hash ∷ c.disposal_hash
      ∷ c.acquisition_claim_hash ∷ c.disposal_claim_hash ∷ []

  unfoldable pub orders_only : List ℕ
  orders_only = c.buy_order_hash ∷ c.sell_order_hash ∷ []

  unfoldable pub claims_only : List ℕ
  claims_only = c.acquisition_claim_hash ∷ c.disposal_claim_hash ∷ []

-- `map_err` on the decoder's result, and the event from what was decoded.
abbrev pub decoded_as :
    {D : Type 0} → (D → VaultEvent) → Result D String → Result VaultEvent EventParseError
decoded_as event (ok d) = ok (event d)
decoded_as event (err e) = err (decode_error e)

module _ (vault_address tx_hash block_number received_at : ℕ) where
  unfoldable pub buy_order_event : BuyOrder → VaultEvent
  buy_order_event d = buy (record {
    keeper = d.keeper;
    trader = d.trader;
    index_id = d.index_id;
    vendor_id = d.vendor_id;
    collateral_amount = d.collateral_amount;
    vault_address = vault_address;
    tx_hash = tx_hash;
    block_number = block_number;
    received_at = received_at;
  })

  unfoldable pub sell_order_event : SellOrder → VaultEvent
  sell_order_event d = sell (record {
    keeper = d.keeper;
    trader = d.trader;
    index_id = d.index_id;
    vendor_id = d.vendor_id;
    itp_amount = d.itp_amount;
    vault_address = vault_address;
    tx_hash = tx_hash;
    block_number = block_number;
    received_at = received_at;
  })

  unfoldable pub acquisition_event : Acquisition → VaultEvent
  acquisition_event d = acquired (record {
    controller = d.controller;
    index_id = d.index_id;
    vendor_id = d.vendor_id;
    remain = d.remain;
    spent = d.spent;
    itp_minted = d.itp_minted;
    vault_address = vault_address;
    tx_hash = tx_hash;
    block_number = block_number;
    received_at = received_at;
  })

  unfoldable pub disposal_event : Disposal → VaultEvent
  disposal_event d = disposed (record {
    controller = d.controller;
    index_id = d.index_id;
    vendor_id = d.vendor_id;
    itp_remain = d.itp_remain;
    itp_burned = d.itp_burned;
    gains = d.gains;
    vault_address = vault_address;
    tx_hash = tx_hash;
    block_number = block_number;
    received_at = received_at;
  })

  unfoldable pub acquisition_claim_event : AcquisitionClaim → VaultEvent
  acquisition_claim_event d = acquisition_claimed (record {
    controller = d.controller;
    index_id = d.index_id;
    vendor_id = d.vendor_id;
    remain = d.remain;
    spent = d.spent;
    itp_minted = d.itp_minted;
    vault_address = vault_address;
    tx_hash = tx_hash;
    block_number = block_number;
    received_at = received_at;
  })

  unfoldable pub disposal_claim_event : DisposalClaim → VaultEvent
  disposal_claim_event d = disposal_claimed (record {
    controller = d.controller;
    index_id = d.index_id;
    vendor_id = d.vendor_id;
    itp_remain = d.itp_remain;
    itp_burned = d.itp_burned;
    gains = d.gains;
    vault_address = vault_address;
    tx_hash = tx_hash;
    block_number = block_number;
    received_at = received_at;
  })

  -- The chain of tests on the first topic.
  unfoldable pub parse_topic : EventCodec → Log → ℕ → Result VaultEvent EventParseError
  unfolding buy_order_event sell_order_event acquisition_event disposal_event
      acquisition_claim_event disposal_claim_event
  parse_topic c log topic0 =
      if nat_beq topic0 c.buy_order_hash
      then decoded_as buy_order_event (c.decode_buy_order log)
      else if nat_beq topic0 c.sell_order_hash
      then decoded_as sell_order_event (c.decode_sell_order log)
      else if nat_beq topic0 c.acquisition_hash
      then decoded_as acquisition_event (c.decode_acquisition log)
      else if nat_beq topic0 c.disposal_hash
      then decoded_as disposal_event (c.decode_disposal log)
      else if nat_beq topic0 c.acquisition_claim_hash
      then decoded_as acquisition_claim_event (c.decode_acquisition_claim log)
      else if nat_beq topic0 c.disposal_claim_hash
      then decoded_as disposal_claim_event (c.decode_disposal_claim log)
      else err (unknown_signature topic0)

  unfoldable pub parse_log : EventCodec → Log → Result VaultEvent EventParseError
  unfolding parse_topic
  parse_log c log = elim log.topics [ [] ↦ err no_topics | topic0 ∷ _ ↦ parse_topic c log topic0 ]
